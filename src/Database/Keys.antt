-- ===== src/Database/Keys.antt =====
-- utils/databaseFunctions.py: a key of the table of files that is taken stays taken, and no second
-- file is entered under it.
use ccp.Prelude.{
  ℕ, String, Bool, true, Option, none, some, List, [], ◌∷◌, ◌++◌, any, str_eq, ◌≡◌, refl, sym, ap,
  ◌∙◌, arith, eq_iff,
}
use ccp.Prelude.Raise.{Exception, Result, ok, raised}
use ccp.Prelude.Script.{Script, Respects, check, modify, continue, continue-eq-ok, lift}
use ccp.Rows.{File, World, Site, file_row, add_row, create, now, or_now}
use ccp.Database.{insert_into_files, in_unit, stamped}
use ccp.Database.Growth.{Keeps, uuids, HasPrimaryKey}
use ccp.Database.Operations.{Keeps-or_now, Keeps-now}

abbrev pub is_taken : {D : Type 0} → String → World D → Bool
is_taken u w = any (str_eq u) (uuids w.files)

-- A result with an exception.
abbrev pub IsRaised : {S A : Type 0} → Result A × S → Type 0
IsRaised o = (e : Exception) × (o.0 ≡ raised e)

any-append :
    (u : String) (xs ys : List String) → any (str_eq u) xs ≡ true → any (str_eq u) (xs ++ ys) ≡ true
any-append u [] ys h = absurd (ground arith)
any-append u (x ∷ xs) ys h = ground (arith, any-append u xs ys)

any-snoc :
    (u : String) (f : File) (files : List File)
    → f.uuid ≡ u
    → any (str_eq u) (uuids (files ++ (f ∷ []))) ≡ true
any-snoc u f [] h = ground (arith, eq_iff u f.uuid)
any-snoc u f (g ∷ files) h = ground (arith, any-snoc u f files h)

in_unit-uuid :
    (transfer sip : String) (f g : File) → in_unit transfer sip f ≡ ok g → g.uuid ≡ f.uuid
unfolding in_unit
in_unit-uuid transfer sip f g h = ground arith

module _ {S A B : Type 0} where
  pub IsRaised-first :
      (o : Result A × S) (k : A → Script S B) → IsRaised o → IsRaised (continue o k)
  IsRaised-first (raised e, s) k h = (e, refl)
  IsRaised-first (ok a, s) k h = absurd (ground (arith, h.1))

  pub IsRaised-next :
      (o : Result A × S) (k : A → Script S B)
      → ((a : A) → o.0 ≡ ok a → IsRaised (k a o.1))
      → IsRaised (continue o k)
  IsRaised-next (raised e, s) k h = (e, refl)
  IsRaised-next (ok a, s) k h = h a refl

module _ {D : Type 0} where
  pub Keeps-is_taken :
      (u : String) (w v : World D) → Keeps D w v → is_taken u w ≡ true → is_taken u v ≡ true
  Keeps-is_taken u w v k h =
      ap (any (str_eq u)) (sym k.file_keys.1) ∙ any-append u (uuids w.files) k.file_keys.0 h

  -- Where a key is taken, a chain raises if what follows a script that keeps the rows raises.
  pub taken-next :
      {A B : Type 0}
      → (u : String) (m : Script (World D) A) (k : A → Script (World D) B) (w : World D)
      → Respects {A = A} (Keeps D) m
      → is_taken u w ≡ true
      → ((a : A) (v : World D) → is_taken u v ≡ true → IsRaised (k a v))
      → IsRaised (continue (m w) k)
  unfolding Respects
  taken-next u m k w keeps h f =
      IsRaised-next (m w) k (λ a e. f a (m w).1 (Keeps-is_taken u w (m w).1 (keeps w) h))

module _ {D : Type 0} (site : Site D) (key : HasPrimaryKey site) where
  refused :
      (f : File) (w : World D) (answer : Option Exception)
      → site.refuses w (file_row f) ≡ answer
      → is_taken f.uuid w ≡ true
      → IsRaised (continue (check answer w) (λ _. modify (add_row (file_row f))))
  unfolding HasPrimaryKey
  refused f w none h t = absurd (ground (arith, key w f h))
  refused f w (some e) h t = (e, refl)

  pub create-taken :
      (f : File) (w : World D) → is_taken f.uuid w ≡ true → IsRaised (create site (file_row f) w)
  unfolding create
  create-taken f w h = refused f w (site.refuses w (file_row f)) refl h

  -- No file is entered under a key that is taken.
  pub insert_into_files-taken :
      (uuid path : String) (entered : Option ℕ) (transfer sip group original : String) (w : World D)
      → is_taken uuid w ≡ true
      → IsRaised (insert_into_files site uuid path entered transfer sip group original w)
  unfolding insert_into_files
  insert_into_files-taken uuid path entered transfer sip group original w h =
      taken-next uuid _ _ w (Keeps-or_now site key entered) h (λ t v h'.
        IsRaised-next (lift (in_unit transfer sip _) v) _ (λ f e.
          taken-next uuid _ _ v (Keeps-now site key) h' (λ t' v' h''. IsRaised-first _ _ (
            create-taken (stamped t' f) v'
              (ap (λ u. is_taken u v') (in_unit-uuid transfer sip _ f e) ∙ h'')))))

  created-taken :
      (f : File) (w : World D) (answer : Option Exception) {u : Unit {0}}
      → (continue (check answer w) (λ _. modify (add_row (file_row f)))).0 ≡ ok u
      → is_taken f.uuid (continue (check answer w) (λ _. modify (add_row (file_row f)))).1 ≡ true
  created-taken f w none h = any-snoc f.uuid f w.files refl
  created-taken f w (some e) h = absurd (ground arith)

  create-enters :
      (f : File) (w : World D) {u : Unit {0}}
      → (create site (file_row f) w).0 ≡ ok u
      → is_taken f.uuid (create site (file_row f) w).1 ≡ true
  unfolding create
  create-enters f w h = created-taken f w (site.refuses w (file_row f)) h

  inserted_is_taken :
      (uuid path : String) (entered : Option ℕ) (transfer sip group original : String)
      (w v : World D) {f : File}
      → insert_into_files site uuid path entered transfer sip group original w ≡ (ok f, v)
      → is_taken uuid v ≡ true
  unfolding insert_into_files
  inserted_is_taken uuid path entered transfer sip group original w v h =
      let first = continue-eq-ok (or_now site entered w) _ h in
      let w1 = (or_now site entered w).1 in
      let second = continue-eq-ok (lift (in_unit transfer sip _) w1) _ first.1.1 in
      let third = continue-eq-ok (now site w1) _ second.1.1 in
      let row = stamped third.0 second.0 in
      let fourth = continue-eq-ok (create site (file_row row) (now site w1).1) _ third.1.1 in
      ap (λ u. is_taken u v) (sym (in_unit-uuid transfer sip _ second.0 second.1.0))
      ∙ ap (λ (o : Result File × World D). is_taken row.uuid o.1) (sym fourth.1.1)
      ∙ create-enters row (now site w1).1 fourth.1.0

  -- The key of a file that was entered is taken.
  pub insert_into_files-enters :
      (uuid path : String) (entered : Option ℕ) (transfer sip group original : String) (w : World D)
      {f : File}
      → (insert_into_files site uuid path entered transfer sip group original w).0 ≡ ok f
      → is_taken uuid (insert_into_files site uuid path entered transfer sip group original w).1
        ≡ true
  insert_into_files-enters uuid path entered transfer sip group original w h =
      let out = insert_into_files site uuid path entered transfer sip group original w in
      inserted_is_taken uuid path entered transfer sip group original w out.1
        (ap (λ r. (r, out.1)) h)

module _ {D A B : Type 0} (u : String) where
  -- A key that the first script of a chain enters is taken after the chain, and so is one that what
  -- follows enters.
  pub enters-first :
      (o : Result A × World D) (k : A → Script (World D) B)
      → ((a : A) → o.0 ≡ ok a → is_taken u o.1 ≡ true)
      → ((a : A) → Respects {A = B} (Keeps D) (k a))
      → (b : B) → (continue o k).0 ≡ ok b
      → is_taken u (continue o k).1 ≡ true
  unfolding Respects
  enters-first (raised e, s) k h keeps b r = absurd (ground (arith, r))
  enters-first (ok a, s) k h keeps b r = Keeps-is_taken u s (k a s).1 (keeps a s) (h a refl)

  pub enters-next :
      (o : Result A × World D) (k : A → Script (World D) B)
      → (b : B) → ((a : A) → (k a o.1).0 ≡ ok b → is_taken u (k a o.1).1 ≡ true)
      → (continue o k).0 ≡ ok b
      → is_taken u (continue o k).1 ≡ true
  enters-next (raised e, s) k b h r = absurd (ground (arith, r))
  enters-next (ok a, s) k b h r = h a r
