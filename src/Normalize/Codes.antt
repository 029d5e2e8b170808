-- ===== src/Normalize/Codes.antt =====
-- clientScripts/normalize.py: the codes that `main` returns.
use ccp.Prelude.Text.{contains}
use ccp.Normalize.Manual.{say, check_manual_normalization}
use ccp.Job.{print_error}
use ccp.FileOperations.{in_job}
use ccp.Prelude.Paths.{basename}
use ccp.Prelude.{
  String, Bool, true, false, Option, none, some, List, str_eq, if◌then◌else◌, ◌≡◌, refl, leb, [],
  ◌∷◌, ◌&&◌, select,
}
use ccp.Prelude.Int.{ℤ, pos, negsuc, is_zero}
use ccp.Prelude.Raise.{ok}
use ccp.Prelude.Script.{
  Returns, Returns->>=, lift, Returns-pure, Returns-throw, Returns-chain, ◌>>=◌, get, when,
}
use ccp.Rows.{
  File, World, Got, one, does_not_exist, multiple_objects, FileFormatVersion, only, draw_uuid,
  get_file, has_uuid,
}
use ccp.Normalize.{
  NormalizeArgs, FpRule, Trace, Act, Registry, success_code, rule_failed, no_rule_found,
  get_replacement_dict, insert_derivation_event,
}
use ccp.Normalize.Linker.{Attempt, link_with}
use ccp.Normalize.Rules.{
  Choice, run_rule, return_code, choose_rule, choose_for, rule_for, default_choice, choice_of,
  announce_rule, attempt_with, remove_derivatives,
}
use ccp.Normalize.Main.{
  verdict, run_chosen, follow, normalize_unless, go_on, main_found, main, store_thumbnails, decoded,
  skipped,
}

-- `SUCCESS`, `RULE_FAILED` or `NO_RULE_FOUND`
abbrev pub is_return_code : ℤ → Bool
is_return_code (pos n) = leb n 2
is_return_code (negsuc n) = false

-- A choice whose code, if it is one, is a return code.
abbrev is_choice : Choice → Bool
is_choice (run_rule rule) = true
is_choice (return_code code) = is_return_code code

next :
    {A B : Type 0}
    → (p : B → Bool) (m : Act A) (k : A → Act B) → ((a : A) → Returns {B = B} p (k a))
    → Returns {B = B} p (m >>= k)
next p = Returns->>= (World Trace) p

default_choice-Returns :
    (reg : Registry) (opts : NormalizeArgs) (location : String)
    → Returns is_choice (default_choice reg opts location)
default_choice-Returns reg opts location =
    next is_choice _ _ (λ r. Returns-pure (World Trace) is_choice (choice_of r) (is_choice-of r))
  where
    is_choice-of : (r : Option FpRule) → is_choice (choice_of r) ≡ true
    is_choice-of none = refl
    is_choice-of (some rule) = refl

either :
    {A : Type 0}
    → (p : A → Bool) (b : Bool) (m k : Act A) → Returns {B = A} p m
    → Returns {B = A} p k
    → Returns {B = A} p (if b then m else k)
either p true m k h h' = h
either p false m k h h' = h'

module _ (reg : Registry) (opts : NormalizeArgs) (location : String) where
  rule_for-Returns : (g : Got FpRule) → Returns is_choice (rule_for reg opts location g)
  rule_for-Returns (one rule) = Returns-pure (World Trace) is_choice (run_rule rule) refl
  rule_for-Returns does_not_exist =
      either is_choice
        (str_eq opts.purpose "thumbnail" && str_eq opts.thumbnail_mode "generate_non_default") _ _
        (next is_choice (say ("Thumbnail not generated as no rule found for format" ∷ [])) _
          (λ u. Returns-pure (World Trace) is_choice (return_code success_code) refl))
        (default_choice-Returns reg opts location)
  rule_for-Returns multiple_objects = Returns-throw (World Trace) is_choice _

  choose_for-Returns :
      (g : Got FileFormatVersion) → Returns is_choice (choose_for reg opts location g)
  choose_for-Returns (one v) =
      next is_choice (say ("File format:" ∷ v.format_version ∷ [])) _
        (λ u. rule_for-Returns (reg.active_rule v.format_version opts.purpose))
  choose_for-Returns does_not_exist = default_choice-Returns reg opts location
  choose_for-Returns multiple_objects = Returns-throw (World Trace) is_choice _

  choose_rule-Returns : Returns is_choice (choose_rule reg opts location)
  unfolding choose_rule
  choose_rule-Returns =
      next is_choice get _
        (λ w. choose_for-Returns (only (select (λ v. str_eq v.file opts.file_uuid) w.formats)))

  verdict-Returns : (a : Attempt) → Returns is_return_code (verdict opts a)
  verdict-Returns a =
      either is_return_code (is_zero a.code) _ _
        (next is_return_code
          (say ("Successfully normalized " ∷ basename opts.file_path ∷ "for" ∷ opts.purpose ∷ [])) _
          (λ u. Returns-pure (World Trace) is_return_code success_code refl))
        (next is_return_code
          (in_job (print_error ("Command" ∷ a.command.description ∷ "failed!" ∷ []))) _
          (λ u. Returns-pure (World Trace) is_return_code rule_failed refl))

  run_chosen-Returns : (rule : FpRule) → Returns is_return_code (run_chosen reg opts location rule)
  unfolding run_chosen
  run_chosen-Returns rule =
      next is_return_code (announce_rule "Format Policy Rule:" "Format Policy Command" rule) _ (λ _.
        next is_return_code (get_replacement_dict reg opts) _ (λ rd.
          next is_return_code (link_with reg opts rule rd) _ (λ a.
            next is_return_code (attempt_with reg opts location a) _
              (λ b. next is_return_code (store_thumbnails reg opts b) _ (λ u. verdict-Returns b)))))

  follow-Returns :
      (c : Choice) → is_choice c ≡ true → Returns is_return_code (follow reg opts location c)
  follow-Returns (run_rule rule) h = run_chosen-Returns rule
  follow-Returns (return_code code) h = Returns-pure (World Trace) is_return_code code h

  normalize_unless-Returns :
      (m : Option File) → Returns is_return_code (normalize_unless reg opts location m)
  unfolding normalize_unless
  normalize_unless-Returns none =
      Returns-chain (World Trace) is_return_code is_choice _ _ choose_rule-Returns follow-Returns
  normalize_unless-Returns (some m) =
      next is_return_code (lift (decoded m.currentlocation)) _ (λ place.
        next is_return_code
          (say (basename opts.file_path ∷ "was already manually normalized into" ∷ place ∷ [])) _
          (λ _.
            next is_return_code
              (when (contains "preservation" opts.purpose) (
                draw_uuid reg.site >>= (λ id.
                  insert_derivation_event reg opts.file_uuid m.uuid id "manual normalization" ""
                    none)))
              _ (λ _. Returns-pure (World Trace) is_return_code success_code refl)))

  go_on-Returns :
      (words : Option (List String)) → Returns is_return_code (go_on reg opts location words)
  go_on-Returns none =
      next is_return_code (remove_derivatives reg opts.file_uuid opts.purpose) _ (λ _.
        next is_return_code (check_manual_normalization reg opts) _
          (λ m. normalize_unless-Returns m))
  go_on-Returns (some words) =
      next is_return_code (say words) _
        (λ _. Returns-pure (World Trace) is_return_code success_code refl)

module _ (reg : Registry) (opts : NormalizeArgs) where
  main_found-Returns : (g : Got File) → Returns is_return_code (main_found reg opts g)
  main_found-Returns (one f) = next is_return_code (lift (decoded f.currentlocation)) _ (λ location.
      next is_return_code (say ("File found:" ∷ f.uuid ∷ location ∷ [])) _
        (λ _. go_on-Returns reg opts location (skipped opts f location)))
  main_found-Returns does_not_exist =
      next is_return_code
        (in_job
          (print_error ("File with uuid" ∷ opts.file_uuid ∷ "does not exist in database." ∷ [])))
        _ (λ _. Returns-pure (World Trace) is_return_code no_rule_found refl)
  main_found-Returns multiple_objects = Returns-throw (World Trace) is_return_code _

  main-Returns : Returns is_return_code (main reg opts)
  unfolding main
  main-Returns =
      next is_return_code get _ (λ w. main_found-Returns (get_file (has_uuid opts.file_uuid) w))

  -- If a normalization returns, its code is one of the three that stand for success, a failed rule
  -- and a missing rule.
  pub main-code :
      (w : World Trace) {code : ℤ} → (main reg opts w).0 ≡ ok code → is_return_code code ≡ true
  unfolding Returns
  main-code w {code} h = main-Returns w code h
