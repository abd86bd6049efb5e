-- ===== src/Hostname/Wildcard.antt =====
-- Which names src/psl_x509_utils.c lets stand for a host.
use libpalmsocket.Base.{
  All, ◌++◌, ℕ, zero, suc, ◌≤◌, ◌<◌, ◌≡◌, ◌≢◌, ◌↔◌, ◌⊎◌, inl, inr, refl, sym, ap, ◌∙◌, true, false,
  Bool-cases, if-true, if-false, Option-cases, Option, none, some, List, [], ◌∷◌, ◌==◌,
  if◌then◌else◌, arith, length,
}
use libpalmsocket.Hostname.{dot, star, skip_label, wildcard, match_loop}
use libpalmsocket.Hostname.Loop.{
  allowed_lem, length-skip_label, no_match, step_same, step_none, step_wild, rest_lem,
  same_complete, same_names, dots,
}

-- Skipping a label ends the name, or goes to the first '.'.
skip_cases :
    (hs : List ℕ)
    → (skip_label hs ≡ [])
      ⊎ ((mid : List ℕ) × (rest : List ℕ) × (skip_label hs ≡ dot ∷ rest)
          × (hs ≡ mid ++ dot ∷ rest)
          × All (λ x. x ≢ dot) mid)
unfolding skip_label
skip_cases [] = inl refl
skip_cases (h ∷ hs) = elim (Bool-cases (h == dot)) [
  | inl found ↦
      let is_dot : h ≡ dot = ground arith in
      inr ([], hs, rw found (ap (λ k. k ∷ hs) is_dot), ap (λ k. k ∷ hs) is_dot, tt)
  | inr on ↦ rw on (elim (skip_cases hs) [
    | inl over ↦ inl over
    | inr (mid, rest, next, shape, none_in) ↦
        inr (h ∷ mid, rest, next, ap (λ k. h ∷ k) shape, (ground arith, none_in))
  ])
]

skip_label-append :
    (mid rest : List ℕ) → All (λ x. x ≢ dot) mid → skip_label (mid ++ dot ∷ rest) ≡ dot ∷ rest
unfolding skip_label
skip_label-append [] rest h = refl
skip_label-append (x ∷ mid) rest (first, others) =
    if-false {b = x == dot} (x ∷ (mid ++ dot ∷ rest)) (ground arith)
    ∙ skip_label-append mid rest others

skip_length : (hs rest : List ℕ) → skip_label hs ≡ dot ∷ rest → length rest < length hs
skip_length hs rest e = omega (arith, ap length e, length-skip_label hs)

module _ (toupper : ℕ → ℕ) where
  -- A name with a wildcard stands for a host: the first labels begin alike; the wildcard ends that of the
  -- certificate's name, and stands for the rest of the host's, `y` and what is in `mid`, where there is
  -- no '.', and `y` is no '*'; and what follows is the same, with at least two labels.
  pub data WildMatch : List ℕ → List ℕ → Type 0 where
    alike :
        (c y : ℕ) (cs hs : List ℕ)
        → toupper c ≡ toupper y
        → toupper c ≢ dot
        → WildMatch cs hs
        → WildMatch (c ∷ cs) (y ∷ hs)
    from_wildcard :
        (c y : ℕ) (ds hs mid rest : List ℕ)
        → toupper c ≡ star
        → toupper y ≢ star
        → toupper y ≢ dot
        → hs ≡ mid ++ dot ∷ rest
        → All (λ x. x ≢ dot) mid
        → same_names toupper ds rest ≡ true
        → 1 ≤ dots toupper ds
        → WildMatch (c ∷ dot ∷ ds) (y ∷ hs)

  no_end :
      (n d : ℕ) (ds : List ℕ) (label : ℕ) (wild : Option ℕ)
      → match_loop toupper n (d ∷ ds) [] label wild ≢ some true
  unfolding match_loop
  no_end zero d ds label wild h = ground arith
  no_end (suc n) d ds label wild h = no_match h

  over_dot :
      (n : ℕ) (ds rest : List ℕ)
      → toupper dot ≡ dot
      → match_loop toupper (suc n) (dot ∷ ds) (dot ∷ rest) 0 (some 0)
        ≡ match_loop toupper n ds rest 1 (some 0)
  over_dot n ds rest d =
      step_same toupper n dot dot ds rest 0 (some 0) (ground arith)
      ∙ ap (λ l. match_loop toupper n ds rest l (some 0)) (if-true 0 (ground arith))

  -- Behind a wildcard the two names go on with a '.' and are the same.
  wild_lem :
      (n : ℕ) (ds rest : List ℕ)
      → toupper dot ≡ dot
      → match_loop toupper n (dot ∷ ds) (dot ∷ rest) 0 (some 0) ≡ some true
      → (same_names toupper ds rest ≡ true) × (1 ≤ dots toupper ds)
  unfolding match_loop
  wild_lem zero ds rest d h = ground arith
  wild_lem (suc n) ds rest d h =
      let (names, last) =
        rest_lem toupper n ds rest 1 (some 0) (omega arith) (sym (over_dot n ds rest d) ∙ h) in
      (names, ground arith)

  wild_match :
      (n c y : ℕ) (cs hs rest : List ℕ)
      → toupper dot ≡ dot
      → (toupper c == toupper y) ≡ false
      → toupper c ≡ star
      → toupper y ≢ dot
      → rest ≡ cs
      → (ds : List ℕ) × (cs ≡ dot ∷ ds)
      → match_loop toupper n rest (skip_label hs) 0 (some 0) ≡ some true
      → WildMatch (c ∷ cs) (y ∷ hs)
  wild_match n c y cs hs rest d differ is_star no_dot same_rest (ds, shape) h =
      elim (skip_cases hs) [
        | inl over ↦ absurd (no_end n dot ds 0 (some 0) (sym (cong2 (same_rest ∙ shape) over) ∙ h))
        | inr (mid, tail, next, parts, no_dots) ↦
            (let (names, enough) =
                wild_lem n ds tail d (sym (cong2 (same_rest ∙ shape) next) ∙ h) in
              rw shape (
                from_wildcard c y ds hs mid tail is_star (ground arith) no_dot parts no_dots names
                  enough))
      ]
    where
      cong2 :
          {a b : List ℕ}
          → rest ≡ a
          → skip_label hs ≡ b
          → match_loop toupper n rest (skip_label hs) 0 (some 0)
            ≡ match_loop toupper n a b 0 (some 0)
      cong2 p q = rw (p, q) refl

  match_loop-WildMatch :
      (n : ℕ) (cn hn : List ℕ)
      → toupper dot ≡ dot
      → match_loop toupper n cn hn 0 none ≡ some true
      → (same_names toupper cn hn ≡ true) ⊎ WildMatch cn hn
  unfolding match_loop same_names dots
  match_loop-WildMatch zero cn hn d h = ground arith
  match_loop-WildMatch (suc n) [] [] d h = inl refl
  match_loop-WildMatch (suc n) [] (y ∷ hs) d h = ground arith
  match_loop-WildMatch (suc n) (c ∷ cs) [] d h = ground arith
  match_loop-WildMatch (suc n) (c ∷ cs) (y ∷ hs) d h = elim (Bool-cases (toupper c == toupper y)) [
    | inl same ↦
        (let q = sym (step_same toupper n c y cs hs 0 none same) ∙ h in
          elim (Bool-cases (toupper c == dot)) [
            | inl is_dot ↦ inl (
                rw same
                  (rest_lem toupper n cs hs (if toupper c == dot then 1 else 0) none
                    (rw is_dot (omega arith)) q).0)
            | inr no_dot ↦
                elim (match_loop-WildMatch n cs hs d
                  (sym (ap (λ l. match_loop toupper n cs hs l none) (if-false 1 no_dot)) ∙ q)) [
                    | inl names ↦ inl (rw same names)
                    | inr w ↦ inr (alike c y cs hs (ground arith) (ground arith) w)
                  ]
          ])
    | inr differ ↦ elim (Option-cases (wildcard toupper c y cs 0)) [
      | inl nothing ↦
          absurd (no_match (sym (step_none toupper n c y cs hs 0 none differ nothing) ∙ h))
      | inr (rest, allowed) ↦
          (let (is_star, _, no_dot, same_rest, found) = allowed_lem toupper c y cs 0 allowed in
            inr (
              wild_match n c y cs hs rest d differ is_star no_dot same_rest found
                (sym (step_wild toupper n c y cs hs rest 0 none differ allowed) ∙ h)))
    ]
  ]

  wild_after :
      (n c y : ℕ) (ds hs rest : List ℕ)
      → toupper dot ≡ dot
      → length hs < n
      → toupper c ≡ star
      → toupper y ≢ star
      → toupper y ≢ dot
      → skip_label hs ≡ dot ∷ rest
      → same_names toupper ds rest ≡ true
      → 1 ≤ dots toupper ds
      → match_loop toupper (suc n) (c ∷ dot ∷ ds) (y ∷ hs) 0 none ≡ some true
  wild_after zero c y ds hs rest d l is_star no_star no_dot next names enough = absurd (omega arith)
  wild_after (suc n) c y ds hs rest d l is_star no_star no_dot next names enough =
      step_wild toupper (suc n) c y (dot ∷ ds) hs (dot ∷ ds) 0 none (ground arith) (ground arith)
      ∙ ap (λ k. match_loop toupper (suc n) (dot ∷ ds) k 0 (some 0)) next
      ∙ over_dot n ds rest d
      ∙ same_complete toupper n ds rest 1 (some 0) (omega (arith, skip_length hs rest next)) names
      ∙ ap some (ground arith)

  wild_complete :
      (n : ℕ) {cn hn : List ℕ}
      → toupper dot ≡ dot
      → length hn < n
      → WildMatch cn hn
      → match_loop toupper n cn hn 0 none ≡ some true
  wild_complete zero d l w = absurd (omega arith)
  wild_complete (suc n) d l (alike c y cs hs same no_dot w) =
      step_same toupper n c y cs hs 0 none (ground arith)
      ∙ ap (λ k. match_loop toupper n cs hs k none)
          (if-false {b = toupper c == dot} 1 (ground arith))
      ∙ wild_complete n d (omega arith) w
  wild_complete (suc n) d l
        (from_wildcard c y ds hs mid rest is_star no_star no_dot parts no_dots names enough) =
      wild_after n c y ds hs rest d (omega arith) is_star no_star no_dot
        (ap skip_label parts ∙ skip_label-append mid rest no_dots) names enough

  -- Given more fuel than the host's name has octets, where `toupper` leaves '.' alone: the loop finds a
  -- match exactly if the names are the same but for the case of letters, or their first labels begin
  -- alike and the certificate's ends in '*', which stands for one or more octets that end the host's
  -- first label, the first of them no '*', and what follows, a '.' and at least two labels, is the same.
  pub match_loop_iff :
      (n : ℕ) (cn hn : List ℕ)
      → toupper dot ≡ dot
      → length hn < n
      → match_loop toupper n cn hn 0 none ≡ some true
        ↔ ((same_names toupper cn hn ≡ true) ⊎ WildMatch cn hn)
  match_loop_iff n cn hn d l = (
    match_loop-WildMatch n cn hn d,
    λ m. elim m [
      | inl names ↦ same_complete toupper n cn hn 0 none l names
      | inr w ↦ wild_complete n d l w
    ],
  )
