-- ===== src/Pool/Scripts.antt =====
-- client/pool.py: `_get_worker_init_args` spreads each script over as many workers as it may have.
use ccp.Prelude.{
  ℕ, zero, suc, ◌-◌, ◌<◌, ◌≡◌, refl, ◌∙◌, ap, String, Bool, false, some, List, [], ◌∷◌, arith,
  get_elem?, length, count, any, str_eq, eq_iff, ltb, min, if◌then◌else◌,
}
use ccp.Prelude.Dict.{Dict, keys}
use ccp.Runner.Rows.{Distinct}
use ccp.Pool.{take_scripts, init_scripts}

-- The scripts that want more than `i` workers, in the order of the dict.
abbrev pub wanting : ℕ → Dict ℕ → List String
wanting i [] = []
wanting i ((script, n) ∷ required) =
    let rest = wanting i required in if ltb i n then script ∷ rest else rest

take_scripts-wanting : (required : Dict ℕ) → (take_scripts required).0 ≡ wanting 0 required
unfolding take_scripts
take_scripts-wanting [] = refl
take_scripts-wanting ((script, n) ∷ required) = ground (arith, take_scripts-wanting required)

wanting-take_scripts :
    (i : ℕ) (required : Dict ℕ) → wanting i (take_scripts required).1 ≡ wanting (suc i) required
unfolding take_scripts
wanting-take_scripts i [] = refl
wanting-take_scripts i ((script, n) ∷ required) = ground (arith, wanting-take_scripts i required)

-- The worker at an index below n registers exactly the scripts that want more workers than the
-- index.
init_scripts-get :
    (n i : ℕ) (required : Dict ℕ)
    → i < n
    → get_elem? (init_scripts n required) i ≡ some (wanting i required)
unfolding init_scripts
init_scripts-get zero i required h = elim h [ ]
init_scripts-get (suc n) zero required h = ap some (take_scripts-wanting required)
init_scripts-get (suc n) (suc i) required h =
    init_scripts-get n i (take_scripts required).1 (omega arith)
    ∙ ap some (wanting-take_scripts i required)

pub length-init_scripts : (n : ℕ) (required : Dict ℕ) → length (init_scripts n required) ≡ n
unfolding init_scripts
length-init_scripts zero required = refl
length-init_scripts (suc n) required = ap suc (length-init_scripts n (take_scripts required).1)

-- How many workers a script wants: 0 if it is not there.
abbrev pub required_of : String → Dict ℕ → ℕ
required_of s [] = 0
required_of s ((script, n) ∷ required) = if str_eq script s then n else required_of s required

abbrev pub registers : String → List String → Bool
registers s = any (str_eq s)

take_scripts-other :
    (s : String) (required : Dict ℕ)
    → registers s (keys required) ≡ false
    → registers s (take_scripts required).0 ≡ false
unfolding take_scripts
take_scripts-other s [] h = refl
take_scripts-other s ((script, n) ∷ required) h = ground (arith, take_scripts-other s required)

take_scripts-registers :
    (s : String) (required : Dict ℕ)
    → Distinct (keys required)
    → (registers s (take_scripts required).0 ≡ ltb 0 (required_of s required))
      × (required_of s (take_scripts required).1 ≡ required_of s required - 1)
unfolding take_scripts
take_scripts-registers s [] d = (refl, refl)
take_scripts-registers s ((script, n) ∷ required) d = ground (
  arith,
  take_scripts-registers s required d.1,
  eq_iff s script,
  eq_iff script s,
  take_scripts-other s required,
)

keys-take_scripts : (required : Dict ℕ) → keys (take_scripts required).1 ≡ keys required
unfolding take_scripts
keys-take_scripts [] = refl
keys-take_scripts ((script, n) ∷ required) = ground (arith, keys-take_scripts required)

-- Of n workers, exactly the smaller of n and its concurrency register a script, if no script is
-- named twice.
pub count-init_scripts :
    (n : ℕ) (s : String) (required : Dict ℕ)
    → Distinct (keys required)
    → count (registers s) (init_scripts n required) ≡ min n (required_of s required)
unfolding init_scripts
count-init_scripts zero s required d = omega arith
count-init_scripts (suc n) s required d =
    let one = take_scripts-registers s required d in
    let rest = (take_scripts required).1 in
    ground (arith, one, count-init_scripts n s rest (rw keys-take_scripts d))
