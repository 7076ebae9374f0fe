-- ===== src/TokenStore/Tests.antt =====
-- The token store's theorems for a node that holds a segment, and one that takes it over.
use kronos_ts.Common.{ℕ, ◌≡◌, ◌≢◌, refl, none, some, List, [], ◌∷◌, arith}
use kronos_ts.Common.Text.{str}
use kronos_ts.Common.Map.{get, get-set_self, set}
use kronos_ts.Outcome.{ok}
use kronos_ts.Token.{global_sequence}
use kronos_ts.TokenStore.{TokenEntry, Entries, key, store, stored_token, claim_token}
use kronos_ts.TokenStore.Key.{key_injective}
use kronos_ts.TokenStore.Lease.{Op, claim, save, prepare, perform_all, IsHeld, lease_protects}
use kronos_ts.TokenStore.Takeover.{IsFenced, take_over, store_resumes}

abbrev held : TokenEntry
held = record { token = some (global_sequence 7); owner_id = some (str "n"); claimed_at = 100 }

abbrev entries : Entries
entries = set (key (str "p") 0) held []

found : get (key (str "p") 0) entries ≡ some held
found = get-set_self (key (str "p") 0) held []

apart : str "n" ≢ str "n1"
apart e = cc

holds : IsHeld held (str "n")
holds = record { holder = refl; named = λ e. cc }

abbrev first : ℕ
first = 0

key_injective_example : (str "p:1" ≡ str "p:1") × (first ≡ first)
key_injective_example = key_injective (str "p:1") (str "p:1") first first refl

abbrev attempts : List (ℕ × Op)
attempts =
    (105, claim (str "p") 0 (str "n1"))
    ∷ (108, save (str "p") 0 (global_sequence 3) (str "n1"))
    ∷ (110, prepare (str "p") 2)
    ∷ []

lease_protects_example : get (key (str "p") 0) (perform_all 10 attempts entries) ≡ some held
lease_protects_example =
    lease_protects 10 attempts (str "p") 0 (str "n") held entries holds
      ((apart, omega arith), ((apart, omega arith), ((tt, omega arith), tt))) found

take_over_example :
    (entries' : Entries) × (claim_token 10 111 (str "p") 0 (str "n1") entries
      ≡ ok (some (global_sequence 7), entries'))
    × IsFenced (str "p") 0 (str "n") entries'
take_over_example =
    take_over 10 111 (str "p") 0 (str "n") (str "n1") held entries holds apart (λ e. cc)
      (omega arith) found

abbrev after_store : Entries
after_store =
    set (key (str "p") 0)
      (record { token = some (global_sequence 8); owner_id = none; claimed_at = 50 }) []

stored : store 50 (str "p") 0 (global_sequence 8) none [] ≡ ok after_store
unfolding store get
stored = refl

store_resumes_example :
    (stored_token (str "p") 0 after_store ≡ some (global_sequence 8))
    × ((claimed : Entries) × (claim_token 10 61 (str "p") 0 (str "n1") after_store
          ≡ ok (some (global_sequence 8), claimed)))
store_resumes_example =
    store_resumes 10 50 61 (str "p") 0 (global_sequence 8) none (str "n1") [] after_store stored
      (omega arith)
