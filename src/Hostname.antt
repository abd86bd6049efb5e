-- ===== src/Hostname.antt =====
-- src/psl_x509_utils.c: whether a name from a certificate, possibly with a wildcard, stands for a host.
-- Names are lists of octets. `toupper` of the C library is a parameter.
pub mod Loop
pub mod Wildcard
mod Tests
use libpalmsocket.Base.{
  ℕ, zero, suc, ◌-◌, ◌≡◌, Bool, true, false, not, Option, none, some, List, [], ◌∷◌, ltb, ◌==◌,
  if◌then◌else◌,
}
use libpalmsocket.Errors.{PslError, no_error, inval}

-- '.' and '*'
abbrev pub dot : ℕ
dot = 46

abbrev pub star : ℕ
star = 42

-- `do { hnIdx++; } while (hnIdx < hnLen && hn[hnIdx] != '.')`, behind the first octet
unfoldable pub skip_label : List ℕ → List ℕ
skip_label [] = []
skip_label (h ∷ hs) = if h == dot then h ∷ hs else skip_label hs

-- Both names have ended: "*.com" stands for no host.
abbrev pub ended : ℕ → Option ℕ → Bool
ended label none = true
ended label (some wild) = not (ltb (label - wild) 2)

module _ (toupper : ℕ → ℕ) where
  -- The wildcard is allowed in the leftmost label alone, in front of its '.'; it stands for at least one
  -- octet. What is left of the certificate's name then:
  abbrev pub wildcard : ℕ → ℕ → List ℕ → ℕ → Option (List ℕ)
  wildcard c h [] label = none
  wildcard c h (d ∷ cs) label =
      if not (toupper c == star)
      then none
      else if not (label == 0)
      then none
      else if not (d == dot)
      then none
      else if toupper h == dot
      then none
      else some (d ∷ cs)

  -- The loop, on what is left of the names, on fuel: `none` if it runs out.
  unfoldable pub match_loop : ℕ → List ℕ → List ℕ → ℕ → Option ℕ → Option Bool
  unfolding skip_label
  match_loop zero cn hn label wild = none
  match_loop (suc n) [] [] label wild = some (ended label wild)
  match_loop (suc n) [] (h ∷ hs) label wild = some false
  match_loop (suc n) (c ∷ cs) [] label wild = some false
  match_loop (suc n) (c ∷ cs) (h ∷ hs) label wild = elim (toupper c == toupper h) [
    | true ↦ match_loop n cs hs (if toupper c == dot then suc label else label) wild
    | false ↦ elim (wildcard c h cs label) [
      | none ↦ some false
      | some rest ↦ match_loop n rest (skip_label hs) label (some label)
    ]
  ]

  abbrev check_names : ℕ → Option (List ℕ) → Option (List ℕ) → PslError × Option Bool
  unfolding match_loop
  check_names n (some (c ∷ cs)) (some (h ∷ hs)) = (no_error, match_loop n (c ∷ cs) (h ∷ hs) 0 none)
  check_names n _ _ = (inval, none)

  -- `PmSockX509CheckCertHostNameMatch`: a NULL pointer is `none`. The match is `none` where it is not
  -- written, and where the fuel runs out.
  unfoldable pub check_cert_host_name_match :
      ℕ → Option (List ℕ) → Option (List ℕ) → ℕ → PslError × Option Bool
  unfolding check_names
  check_cert_host_name_match n cn hn opts = if opts == 0 then check_names n cn hn else (inval, none)
