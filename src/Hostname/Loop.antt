-- ===== src/Hostname/Loop.antt =====
-- The loop of src/psl_x509_utils.c: that it ends, and what it does behind the first label.
use libpalmsocket.Base.{
  ℕ, zero, suc, ◌+◌, ◌≤◌, ◌<◌, ◌≡◌, ◌≢◌, inl, inr, refl, sym, ap, ◌∙◌, Bool, true, false,
  Bool-cases, Option-cases, Option, none, some, List, [], ◌∷◌, ◌==◌, if◌then◌else◌, arith, length,
}
use libpalmsocket.Hostname.{dot, star, skip_label, ended, wildcard, match_loop}

pub length-skip_label : (hs : List ℕ) → length (skip_label hs) ≤ length hs
unfolding skip_label
length-skip_label [] = omega arith
length-skip_label (h ∷ hs) = ground (arith, length-skip_label hs)

pub shift :
    (b : Bool) (label d : ℕ)
    → label + (if b then suc d else d) ≡ (if b then suc label else label) + d
shift true label d = omega arith
shift false label d = refl

later : (b : Bool) (label : ℕ) → 1 ≤ label → 1 ≤ (if b then suc label else label)
later true label h = omega arith
later false label h = h

pub no_match : some false ≢ some true
no_match h = ground arith

module _ (toupper : ℕ → ℕ) where
  pub step_same :
      (n c y : ℕ) (cs hs : List ℕ) (label : ℕ) (wild : Option ℕ)
      → (toupper c == toupper y) ≡ true
      → match_loop toupper (suc n) (c ∷ cs) (y ∷ hs) label wild
        ≡ match_loop toupper n cs hs (if toupper c == dot then suc label else label) wild
  unfolding match_loop
  step_same n c y cs hs label wild e = rw (match_loop, e) refl

  pub step_none :
      (n c y : ℕ) (cs hs : List ℕ) (label : ℕ) (wild : Option ℕ)
      → (toupper c == toupper y) ≡ false
      → wildcard toupper c y cs label ≡ none
      → match_loop toupper (suc n) (c ∷ cs) (y ∷ hs) label wild ≡ some false
  unfolding match_loop
  step_none n c y cs hs label wild e w = rw (match_loop, e, w) refl

  pub step_wild :
      (n c y : ℕ) (cs hs rest : List ℕ) (label : ℕ) (wild : Option ℕ)
      → (toupper c == toupper y) ≡ false
      → wildcard toupper c y cs label ≡ some rest
      → match_loop toupper (suc n) (c ∷ cs) (y ∷ hs) label wild
        ≡ match_loop toupper n rest (skip_label hs) label (some label)
  unfolding match_loop
  step_wild n c y cs hs rest label wild e w = rw (match_loop, e, w) refl

  -- The loop that matches a certificate's name with a host's ends with an answer, given more fuel than the
  -- host's name has octets.
  pub match_loop_lem :
      (n : ℕ) (cn hn : List ℕ) (label : ℕ) (wild : Option ℕ)
      → length hn < n
      → (b : Bool) × (match_loop toupper n cn hn label wild ≡ some b)
  unfolding match_loop
  match_loop_lem zero cn hn label wild h = absurd (omega arith)
  match_loop_lem (suc n) [] [] label wild h = (ended label wild, refl)
  match_loop_lem (suc n) [] (y ∷ hs) label wild h = (false, refl)
  match_loop_lem (suc n) (c ∷ cs) [] label wild h = (false, refl)
  match_loop_lem (suc n) (c ∷ cs) (y ∷ hs) label wild h =
      elim (Bool-cases (toupper c == toupper y)) [
        | inl same ↦ rw (step_same n c y cs hs label wild same) (
            match_loop_lem n cs hs (if toupper c == dot then suc label else label) wild
              (omega arith))
        | inr differ ↦ elim (Option-cases (wildcard toupper c y cs label)) [
          | inl nothing ↦ (false, step_none n c y cs hs label wild differ nothing)
          | inr (rest, allowed) ↦ rw (step_wild n c y cs hs rest label wild differ allowed) (
              match_loop_lem n rest (skip_label hs) label (some label)
                (omega (arith, length-skip_label hs)))
        ]
      ]

  -- Two names that differ in the case of letters alone
  unfoldable pub same_names : List ℕ → List ℕ → Bool
  same_names [] [] = true
  same_names [] (_ ∷ _) = false
  same_names (_ ∷ _) [] = false
  same_names (c ∷ cs) (h ∷ hs) = if toupper c == toupper h then same_names cs hs else false

  -- How many labels follow the first
  unfoldable pub dots : List ℕ → ℕ
  dots [] = 0
  dots (c ∷ cs) = let rest = dots cs in if toupper c == dot then suc rest else rest

  -- What a wildcard needs that is allowed
  pub allowed_lem :
      (c y : ℕ) (cs : List ℕ) (label : ℕ) {rest : List ℕ}
      → wildcard toupper c y cs label ≡ some rest
      → (toupper c ≡ star)
        × (label ≡ 0)
        × (toupper y ≢ dot)
        × (rest ≡ cs)
        × ((ds : List ℕ) × (cs ≡ dot ∷ ds))
  allowed_lem c y [] label h = ground arith
  allowed_lem c y (d ∷ cs) label h =
      (ground arith, ground arith, ground arith, ground arith, (cs, ground arith))

  -- Behind the first label no wildcard is allowed, so the rest is compared octet by octet.
  pub rest_lem :
      (n : ℕ) (cn hn : List ℕ) (label : ℕ) (wild : Option ℕ)
      → 1 ≤ label
      → match_loop toupper n cn hn label wild ≡ some true
      → (same_names cn hn ≡ true) × (ended (label + dots cn) wild ≡ true)
  unfolding match_loop same_names dots
  rest_lem zero cn hn label wild p h = ground arith
  rest_lem (suc n) [] [] label wild p h = ground arith
  rest_lem (suc n) [] (y ∷ hs) label wild p h = ground arith
  rest_lem (suc n) (c ∷ cs) [] label wild p h = ground arith
  rest_lem (suc n) (c ∷ cs) (y ∷ hs) label wild p h = elim (Bool-cases (toupper c == toupper y)) [
    | inl same ↦
        (let (names, last) =
            rest_lem n cs hs (if toupper c == dot then suc label else label) wild
              (later (toupper c == dot) label p)
              (sym (step_same n c y cs hs label wild same) ∙ h) in
          (rw same names, ap (λ k. ended k wild) (shift (toupper c == dot) label (dots cs)) ∙ last))
    | inr differ ↦ elim (Option-cases (wildcard toupper c y cs label)) [
      | inl nothing ↦ absurd (no_match (sym (step_none n c y cs hs label wild differ nothing) ∙ h))
      | inr (rest, allowed) ↦ absurd (omega (arith, p, (allowed_lem c y cs label allowed).1))
    ]
  ]

  pub same_complete :
      (n : ℕ) (cn hn : List ℕ) (label : ℕ) (wild : Option ℕ)
      → length hn < n
      → same_names cn hn ≡ true
      → match_loop toupper n cn hn label wild ≡ some (ended (label + dots cn) wild)
  unfolding match_loop same_names dots
  same_complete zero cn hn label wild l h = absurd (omega arith)
  same_complete (suc n) [] [] label wild l h = ap (λ k. some (ended k wild)) (omega arith)
  same_complete (suc n) [] (y ∷ hs) label wild l h = ground arith
  same_complete (suc n) (c ∷ cs) [] label wild l h = ground arith
  same_complete (suc n) (c ∷ cs) (y ∷ hs) label wild l h =
      step_same n c y cs hs label wild (ground arith)
      ∙ same_complete n cs hs (if toupper c == dot then suc label else label) wild (omega arith)
          (ground arith)
      ∙ ap (λ k. some (ended k wild)) (sym (shift (toupper c == dot) label (dots cs)))
