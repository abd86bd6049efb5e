-- ===== src/Hostname/Tests.antt =====
-- Runs of the match of names of src/psl_x509_utils.c.
use libpalmsocket.Base.{
  ℕ, ◌-◌, ◌≡◌, ◌⊎◌, ◌↔◌, refl, Bool, true, ltb, ◌&&◌, if◌then◌else◌, some, none, List, [], ◌∷◌,
  arith,
}
use libpalmsocket.Errors.{no_error}
use libpalmsocket.Hostname.{match_loop, check_cert_host_name_match, skip_label}
use libpalmsocket.Hostname.Loop.{match_loop_lem, same_names}
use libpalmsocket.Hostname.Wildcard.{match_loop_iff, WildMatch}

-- `toupper` on ASCII
abbrev upper : ℕ → ℕ
upper c = if ltb 96 c && ltb c 123 then c - 32 else c

-- "*.Palm.com" and "www.palm.com"
abbrev cert_name : List ℕ
cert_name = 42 ∷ 46 ∷ 80 ∷ 97 ∷ 108 ∷ 109 ∷ 46 ∷ 99 ∷ 111 ∷ 109 ∷ []

abbrev host_name : List ℕ
host_name = 119 ∷ 119 ∷ 119 ∷ 46 ∷ 112 ∷ 97 ∷ 108 ∷ 109 ∷ 46 ∷ 99 ∷ 111 ∷ 109 ∷ []

palm_run :
    check_cert_host_name_match upper 13 (some cert_name) (some host_name) 0 ≡ (no_error, some true)
unfolding check_cert_host_name_match match_loop skip_label
palm_run = refl

match_loop_lem_example : (b : Bool) × (match_loop upper 13 cert_name host_name 0 none ≡ some b)
match_loop_lem_example = match_loop_lem upper 13 cert_name host_name 0 none (omega arith)

match_loop_iff_example :
    match_loop upper 13 cert_name host_name 0 none ≡ some true
    ↔ ((same_names upper cert_name host_name ≡ true) ⊎ WildMatch upper cert_name host_name)
match_loop_iff_example = match_loop_iff upper 13 cert_name host_name refl (omega arith)
