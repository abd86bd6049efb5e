-- ===== src/Certificate/Names.antt =====
-- Which names of a certificate decide, in src/psl_openssl_utils.c.
use libpalmsocket.Base.{
  true-false, ℕ, Bool, true, false, ◌||◌, ◌≡◌, refl, sym, ap, ◌∙◌, Option, none, some, List, [],
  ◌∷◌, if◌then◌else◌, arith,
}
use libpalmsocket.Errors.{no_error}
use libpalmsocket.Inet.{InetSys}
use libpalmsocket.Certificate.{
  GeneralName, Cert, in_alt_names, entry, san_by, san_loop, verify_in_subj_alt_name, common_name,
  cn_loop, verify_in_common_name, host_address, else_common_name, verify_hostname,
}

-- Whether a test holds for one of the entries that are there.
abbrev pub any {ℓ} : {A : Type ℓ} → (A → Bool) → List (Option A) → Bool
any p [] = false
any p (none ∷ xs) = any p xs
any p (some x ∷ xs) = p x || any p xs

abbrev pub counts : Option Bool → Bool
counts none = false
counts (some _) = true

abbrev pub matches : Option Bool → Bool
matches none = false
matches (some b) = b

-- The alternative names that a certificate has.
abbrev pub listed {ℓ} : {A : Type ℓ} → Option (List A) → List A
listed none = []
listed (some xs) = xs

abbrev pub alt_names_of : Cert → List (Option GeneralName)
alt_names_of cert = if cert.has_extensions then listed cert.alt_names else []

module _ (toupper : ℕ → ℕ) (sys : InetSys) (hn : List ℕ) (opts : ℕ) (a : Option (List ℕ)) where
  abbrev pub is_match : GeneralName → Bool
  is_match g = matches (entry toupper sys hn opts a g)

  abbrev pub is_relevant : GeneralName → Bool
  is_relevant g = counts (entry toupper sys hn opts a g)

  abbrev loop : List (Option GeneralName) → Bool → Bool × Bool
  loop xs saw = san_loop toupper sys hn opts a xs saw

  abbrev by : List (Option GeneralName) → Bool → Option Bool → Bool × Bool
  by xs saw r = san_by toupper sys hn opts (λ s. loop xs s) saw r

  -- one name, by what its entry comes to
  round_lem :
      (r : Option Bool) (xs : List (Option GeneralName)) (saw : Bool)
      → ((s : Bool) → (loop xs s).0 ≡ any is_match xs)
      → (by xs saw r).0 ≡ (matches r || any is_match xs)
  round_lem none xs saw ih = ih saw
  round_lem (some true) xs saw ih = refl
  round_lem (some false) xs saw ih = ih true

  loop-any : (xs : List (Option GeneralName)) (saw : Bool) → (loop xs saw).0 ≡ any is_match xs
  unfolding san_loop
  loop-any [] saw = refl
  loop-any (none ∷ xs) saw = loop-any xs saw
  loop-any (some g ∷ xs) saw = round_lem _ xs saw (loop-any xs)

  seen_lem :
      (r : Option Bool) (xs : List (Option GeneralName)) (saw : Bool)
      → (matches r || any is_match xs) ≡ false
      → (any is_match xs ≡ false → (s : Bool) → (loop xs s).1 ≡ (s || any is_relevant xs))
      → (by xs saw r).1 ≡ (saw || (counts r || any is_relevant xs))
  seen_lem none xs saw n ih = ih n saw
  seen_lem (some true) xs saw n ih = ground arith
  seen_lem (some false) xs saw n ih = ih n true ∙ or_true saw
    where
      or_true : (b : Bool) → true ≡ (b || true)
      or_true b = ground arith

  -- where no name matches, the loop has seen whether one counts
  loop-seen :
      (xs : List (Option GeneralName)) (saw : Bool)
      → any is_match xs ≡ false
      → (loop xs saw).1 ≡ (saw || any is_relevant xs)
  unfolding san_loop
  loop-seen [] saw n = or_false saw
    where
      or_false : (b : Bool) → b ≡ (b || false)
      or_false b = ground arith
  loop-seen (none ∷ xs) saw n = loop-seen xs saw n
  loop-seen (some g ∷ xs) saw n = seen_lem _ xs saw n (λ m s. loop-seen xs s m)

  cn_loop-any :
      (xs : List (Option (List ℕ)))
      → cn_loop toupper sys hn opts a xs ≡ any (common_name toupper sys hn opts a) xs
  unfolding cn_loop
  cn_loop-any [] = refl
  cn_loop-any (none ∷ xs) = cn_loop-any xs
  cn_loop-any (some s ∷ xs) = either (common_name toupper sys hn opts a s) _ _ (cn_loop-any xs)
    where
      either : (b x y : Bool) → x ≡ y → (if b then true else x) ≡ (b || y)
      either b x y h = ground arith

  alt-any :
      (b : Bool) (q : Option (List (Option GeneralName)))
      → (if b then in_alt_names toupper sys hn opts a q else (false, false)).0
        ≡ any is_match (if b then listed q else [])
  alt-any true none = refl
  alt-any true (some xs) = loop-any xs false
  alt-any false q = refl

  alt-seen :
      (b : Bool) (q : Option (List (Option GeneralName)))
      → any is_match (if b then listed q else []) ≡ false
      → (if b then in_alt_names toupper sys hn opts a q else (false, false)).1
        ≡ any is_relevant (if b then listed q else [])
  alt-seen true none n = refl
  alt-seen true (some xs) n = loop-seen xs false n
  alt-seen false q n = refl

  common-any :
      (q : Option (List (Option (List ℕ))))
      → (elim q [ none ↦ false | some xs ↦ cn_loop toupper sys hn opts a xs ])
        ≡ any (common_name toupper sys hn opts a) (listed q)
  common-any none = refl
  common-any (some xs) = cn_loop-any xs

module _ (toupper : ℕ → ℕ) (sys : InetSys) (opts : ℕ) where
  else_lem :
      (hn : List ℕ) (cert : Cert) (b r : Bool) (q : Bool × Bool)
      → q.0 ≡ b
      → (b ≡ false → q.1 ≡ r)
      → else_common_name toupper sys hn opts cert q ≡ (
        no_error,
        if b
            then true
            else if r
            then false
            else verify_in_common_name toupper sys hn opts (host_address toupper sys hn opts) cert,
      )
  else_lem hn cert true r (true, saw) h k = refl
  else_lem hn cert true r (false, saw) h k = absurd (ground arith)
  else_lem hn cert false r (true, saw) h k = absurd (ground arith)
  else_lem hn cert false true (false, true) h k = refl
  else_lem hn cert false true (false, false) h k = absurd (true-false (sym (k refl)))
  else_lem hn cert false false (false, true) h k = absurd (true-false (k refl))
  else_lem hn cert false false (false, false) h k = refl

  -- PmSockOpensslVerifyHostname without options, for a host's name that is not empty and a certificate:
  -- the host matches if one of the subject alternative names does that count for it, DNS names for a
  -- name and addresses for an address. Where one counts and none matches it does not. The common names
  -- decide only where none counts.
  pub verify_hostname-any :
      (h : ℕ) (hs : List ℕ) (cert : Cert)
      → verify_hostname toupper sys (some (h ∷ hs)) (some cert) 0 opts ≡ (
        no_error,
        if any
              (is_match toupper sys (h ∷ hs) opts (host_address toupper sys (h ∷ hs) opts))
              (alt_names_of cert)
            then true
            else if any
                (is_relevant toupper sys (h ∷ hs) opts (host_address toupper sys (h ∷ hs) opts))
                (alt_names_of cert)
            then false
            else any
                (common_name toupper sys (h ∷ hs) opts (host_address toupper sys (h ∷ hs) opts))
                (listed cert.common_names),
      )
  unfolding verify_hostname verify_in_subj_alt_name verify_in_common_name
  verify_hostname-any h hs cert =
      let a = host_address toupper sys (h ∷ hs) opts in
      else_lem (h ∷ hs) cert _ _ (verify_in_subj_alt_name toupper sys (h ∷ hs) opts a cert)
        (alt-any toupper sys (h ∷ hs) opts a cert.has_extensions cert.alt_names)
        (alt-seen toupper sys (h ∷ hs) opts a cert.has_extensions cert.alt_names)
      ∙ ap
          (λ c. (
            no_error,
            if any (is_match toupper sys (h ∷ hs) opts a) (alt_names_of cert)
                then true
                else if any (is_relevant toupper sys (h ∷ hs) opts a) (alt_names_of cert)
                then false
                else c,
          ))
          (common-any toupper sys (h ∷ hs) opts a cert.common_names)
