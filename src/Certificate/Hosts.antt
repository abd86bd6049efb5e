-- ===== src/Certificate/Hosts.antt =====
-- Which certificates src/psl_openssl_utils.c takes for which hosts.
use mathlib.Core.Path.{subst}
use libpalmsocket.Base.{
  ℕ, suc, Bool, true, false, not, ◌&&◌, ◌||◌, ◌<◌, ◌≡◌, ◌≢◌, ◌↔◌, ◌⊎◌, refl, sym, ap, inl, inr,
  Option, none, some, List, [], ◌∷◌, if◌then◌else◌, arith, ◌==◌, All, length, true-false, ltb,
}
use libpalmsocket.Errors.{no_error, inval}
use libpalmsocket.Inet.{InetSys, Family, ipaddr_from_string}
use libpalmsocket.Hostname.{dot, match_loop, check_cert_host_name_match}
use libpalmsocket.Hostname.Loop.{same_names}
use libpalmsocket.Hostname.Wildcard.{WildMatch, match_loop_iff}
use libpalmsocket.Certificate.{
  GeneralName, dns_name, ip_address, other_name, Cert, eq_bytes, has_nul, got, name_matches,
  common_name, parsed_as, address_of, host_address, verify_hostname,
}
use libpalmsocket.Certificate.Names.{
  any, is_match, is_relevant, alt_names_of, listed, verify_hostname-any,
}

-- One of the entries that are there has the property.
abbrev pub Any {ℓ} : {A : Type ℓ} → (A → Type 0) → List (Option A) → Type 0
Any P [] = ⊥
Any P (none ∷ xs) = Any P xs
Any P (some x ∷ xs) = P x ⊎ Any P xs

any_iff {ℓ} :
    {A : Type ℓ} (p : A → Bool) (P : A → Type 0) (xs : List (Option A))
    → ((x : A) → (p x ≡ true) ↔ P x)
    → (any p xs ≡ true) ↔ Any P xs
any_iff p P [] h = ((λ q. absurd (true-false (sym q))), λ q. absurd q)
any_iff p P (none ∷ xs) h = any_iff p P xs h
any_iff p P (some x ∷ xs) h = either (p x) (any p xs) (h x) (any_iff p P xs h)
  where
    either :
        {Q R : Type 0} (a b : Bool)
        → ((a ≡ true) ↔ Q)
        → ((b ≡ true) ↔ R)
        → ((a || b) ≡ true) ↔ (Q ⊎ R)
    either a b q r = ground (arith, q, r)

eq_bytes_iff : (xs ys : List ℕ) → (eq_bytes xs ys ≡ true) ↔ (ys ≡ xs)
eq_bytes_iff [] [] = ground arith
eq_bytes_iff [] (y ∷ ys) = ground arith
eq_bytes_iff (x ∷ xs) [] = ground arith
eq_bytes_iff (x ∷ xs) (y ∷ ys) = ground (arith, eq_bytes_iff xs ys)

has_nul_iff : (xs : List ℕ) → (has_nul xs ≡ false) ↔ All (λ x. x ≢ 0) xs
has_nul_iff [] = ground arith
has_nul_iff (x ∷ xs) = ground (arith, has_nul_iff xs)

module _ (toupper : ℕ → ℕ) (sys : InetSys) (h : ℕ) (hs : List ℕ) (opts : ℕ) where
  -- Without options, the name is the host's but for the case of letters, or by a wildcard.
  abbrev pub StandsFor : List ℕ → Type 0
  StandsFor s = (opts ≡ 0) × ((same_names toupper s (h ∷ hs) ≡ true) ⊎ WildMatch toupper s (h ∷ hs))

  -- The alternative names that count for the host: DNS names that are IA5 strings for a name, and
  -- addresses for an address.
  abbrev pub Counts : Option (List ℕ) → GeneralName → Type 0
  Counts none (dns_name true s) = Unit
  Counts (some a) (ip_address s) = Unit
  Counts _ _ = ⊥

  -- Those that match it
  abbrev pub Matches : Option (List ℕ) → GeneralName → Type 0
  Matches none (dns_name true s) = StandsFor s
  Matches (some a) (ip_address s) = s ≡ a
  Matches _ _ = ⊥

  -- The common names that match it: for an address, a text of it that is not too long and has no NUL.
  abbrev pub IsCommon : Option (List ℕ) → List ℕ → Type 0
  IsCommon none s = StandsFor s
  IsCommon (some a) s =
      (length s < 46)
      × All (λ x. x ≢ 0) s
      × ((f : Family) × (ipaddr_from_string sys (some s) ≡ some (f, a)))

  -- Whether the host is the address `a`, or a name
  abbrev pub IsAddress : Option (List ℕ) → Type 0
  IsAddress none = ipaddr_from_string sys (some (h ∷ hs)) ≡ none
  IsAddress (some a) = (f : Family) × (ipaddr_from_string sys (some (h ∷ hs)) ≡ some (f, a))

  -- no wildcard stands for anything without a name
  unnamed : (s : List ℕ) → s ≡ [] → WildMatch toupper s (h ∷ hs) → ⊥
  unnamed s q (WildMatch.alike c y cs ys a b w) = absurd (ground arith)
  unnamed s q (WildMatch.from_wildcard c y ds ys mid rest a b e f g i j) = absurd (ground arith)

  StandsFor-nothing : StandsFor [] → ⊥
  unfolding same_names
  StandsFor-nothing (_, inl q) = true-false (sym q)
  StandsFor-nothing (_, inr w) = unnamed [] refl w

  name_matches_iff :
      (s : List ℕ)
      → toupper dot ≡ dot
      → (name_matches toupper sys (h ∷ hs) opts s ≡ true) ↔ StandsFor s
  unfolding name_matches check_cert_host_name_match
  name_matches_iff [] d = (λ q. absurd (refused (opts == 0) q), λ q. absurd (StandsFor-nothing q))
    where
      refused : (b : Bool) → got (if b then (inval, none) else (inval, none)) ≡ true → ⊥
      refused b q = ground arith
  name_matches_iff (c ∷ cs) d =
      joined (opts == 0) (match_loop toupper (suc (length (h ∷ hs))) (c ∷ cs) (h ∷ hs) 0 none)
        (ground arith)
        (match_loop_iff toupper (suc (length (h ∷ hs))) (c ∷ cs) (h ∷ hs) d (omega arith))
    where
      joined :
          {P Q : Type 0} (b : Bool) (m : Option Bool)
          → ((b ≡ true) ↔ P)
          → ((m ≡ some true) ↔ Q)
          → (got (if b then (no_error, m) else (inval, none)) ≡ true) ↔ (P × Q)
      joined b m p q = ground (arith, p, q)

  module _ (d : toupper dot ≡ dot) where
    is_relevant_iff :
        (a : Option (List ℕ)) (g : GeneralName)
        → (is_relevant toupper sys (h ∷ hs) opts a g ≡ true) ↔ Counts a g
    is_relevant_iff none (dns_name true s) = ground arith
    is_relevant_iff none (dns_name false s) = ground arith
    is_relevant_iff none (ip_address s) = ground arith
    is_relevant_iff none other_name = ground arith
    is_relevant_iff (some a) (dns_name b s) = ground arith
    is_relevant_iff (some a) (ip_address s) = ground arith
    is_relevant_iff (some a) other_name = ground arith

    is_match_iff :
        (a : Option (List ℕ)) (g : GeneralName)
        → (is_match toupper sys (h ∷ hs) opts a g ≡ true) ↔ Matches a g
    is_match_iff none (dns_name true s) = name_matches_iff s d
    is_match_iff none (dns_name false s) = ground arith
    is_match_iff none (ip_address s) = ground arith
    is_match_iff none other_name = ground arith
    is_match_iff (some a) (dns_name b s) = ground arith
    is_match_iff (some a) (ip_address s) = eq_bytes_iff a s
    is_match_iff (some a) other_name = ground arith

    parsed_as_iff :
        (a : List ℕ) (r : Option (Family × List ℕ))
        → (parsed_as toupper sys (h ∷ hs) opts a r ≡ true) ↔ ((f : Family) × (r ≡ some (f, a)))
    parsed_as_iff a none = (λ q. absurd (true-false (sym q)), λ (f, q). absurd (cc q))
    parsed_as_iff a (some (f, b)) = (
      λ q. (f, ap (λ x. some (f, x)) ((eq_bytes_iff a b).0 q)),
      λ (g, q). (eq_bytes_iff a b).1 (cc q),
    )

    common_name_iff :
        (a : Option (List ℕ)) (s : List ℕ)
        → (common_name toupper sys (h ∷ hs) opts a s ≡ true) ↔ IsCommon a s
    common_name_iff none s = name_matches_iff s d
    common_name_iff (some a) s =
        three (length s) (has_nul s)
          (parsed_as toupper sys (h ∷ hs) opts a (ipaddr_from_string sys (some s))) (has_nul_iff s)
          (parsed_as_iff a (ipaddr_from_string sys (some s)))
      where
        three :
            {P Q : Type 0} (n : ℕ) (b r : Bool)
            → ((b ≡ false) ↔ P)
            → ((r ≡ true) ↔ Q)
            → ((if ltb n 46 && not b then r else false) ≡ true) ↔ ((n < 46) × P × Q)
        three n b r p q = ground (arith, p, q)

    address : (a : Option (List ℕ)) → IsAddress a → host_address toupper sys (h ∷ hs) opts ≡ a
    address none q = ap (address_of toupper sys (h ∷ hs) opts) q
    address (some a) (f, q) = ap (address_of toupper sys (h ∷ hs) opts) q

    -- PmSockOpensslVerifyHostname without options of its own, for a host's name that is not empty and a
    -- certificate, where `toupper` leaves '.' alone, gives no error. It finds that the host matches exactly
    -- if one of the subject alternative names that count for it does; or if none counts, and one of the
    -- common names does. For a host that is an address only the same addresses match, alternative names
    -- as octets and common names as texts of fewer than 46 octets without NUL; for one that is a name,
    -- DNS names that are IA5 strings, and common names, that stand for it, by a wildcard or not.
    pub verify_hostname_iff :
        (a : Option (List ℕ)) (cert : Cert)
        → IsAddress a
        → (b : Bool) × (verify_hostname toupper sys (some (h ∷ hs)) (some cert) 0 opts
            ≡ (no_error, b))
          × ((b ≡ true) ↔ (
              Any (Matches a) (alt_names_of cert)
              ⊎ ((Any (Counts a) (alt_names_of cert) → ⊥)
                  × Any (IsCommon a) (listed cert.common_names))))
    verify_hostname_iff a cert q = (
      _,
      subst
          (λ x.
            verify_hostname toupper sys (some (h ∷ hs)) (some cert) 0 opts ≡ (no_error, decided x))
          (address a q) (verify_hostname-any toupper sys opts h hs cert),
      settled (any (is_match toupper sys (h ∷ hs) opts a) (alt_names_of cert))
          (any (is_relevant toupper sys (h ∷ hs) opts a) (alt_names_of cert))
          (any (common_name toupper sys (h ∷ hs) opts a) (listed cert.common_names))
          (any_iff _ (Matches a) (alt_names_of cert) (is_match_iff a))
          (any_iff _ (Counts a) (alt_names_of cert) (is_relevant_iff a))
          (any_iff _ (IsCommon a) (listed cert.common_names) (common_name_iff a)),
    )
      where
        decided : Option (List ℕ) → Bool
        decided x =
            if any (is_match toupper sys (h ∷ hs) opts x) (alt_names_of cert)
            then true
            else if any (is_relevant toupper sys (h ∷ hs) opts x) (alt_names_of cert)
            then false
            else any (common_name toupper sys (h ∷ hs) opts x) (listed cert.common_names)

        settled :
            {P Q R : Type 0} (m c n : Bool)
            → ((m ≡ true) ↔ P)
            → ((c ≡ true) ↔ Q)
            → ((n ≡ true) ↔ R)
            → ((if m then true else if c then false else n) ≡ true) ↔ (P ⊎ ((Q → ⊥) × R))
        settled true c n p q r = (λ e. inl (p.0 refl), λ x. refl)
        settled false true n p q r = (
          λ e. absurd (true-false (sym e)),
          λ x. elim x [
            | inl y ↦ absurd (true-false (sym (p.1 y)))
            | inr (none_counts, _) ↦ absurd (none_counts (q.0 refl))
          ],
        )
        settled false false n p q r = (
          λ e. inr (λ y. true-false (sym (q.1 y)), r.0 e),
          λ x. elim x [ inl y ↦ absurd (true-false (sym (p.1 y))) | inr (_, z) ↦ r.1 z ],
        )
