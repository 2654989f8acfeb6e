-- ===== src/Tests/Subjects.antt =====
-- A panel with one node and one service, and a cipher that only stores.
use antimage.Common.{
  String, ℕ, ◌≡◌, ◌≢◌, refl, true, Option, none, some, List, [], ◌∷◌, contains, ℕ_discrete, length,
  String_discrete, arith, sym, ◌⊎◌,
}
use antimage.Common.Int.{pos}
use antimage.Common.Maps
use antimage.Common.Outcome.{Outcome, ok, err}
use antimage.Panel.Subjects.Tables.{
  CredentialKind, uuid, password, Subject, Credential, Tables, get_row, no_token,
}
use antimage.Panel.Subjects.Credentials.{
  Aead, Draws, generate_credential, put_credential, upsert_credential, credential, rotate,
}
use antimage.Panel.Subjects.Sealed.{HasNonces, rotate-credential}
use antimage.Panel.Subjects.Store.{
  Texts, CreateInput, create_subject, create_in_box, has_name, has_token, clashes, chosen, grant,
  grant_all, has_grant, new_subject,
}
use antimage.Panel.Subjects.Created.{Created, create_subject-Created}
use antimage.Panel.Subjects.Tokens.{revoke_token, write_token, lookup_by_token}
use antimage.Panel.Subjects.Links.{revoke_token-lookup}
use antimage.Panel.Subjects.Sweeper.{sweep, due_subjects, retire_all}
use antimage.Panel.Subjects.Swept.{IsKeyed, swept, sweep-due, sweep-republishes}
use antimage.Panel.Subjects.Unique.{token_key, IsUnique}
use antimage.Panel.Subjects.Indexed.{IsIndexed}
use antimage.Panel.Subjects.Calls.{start, later, creates, rotates, sweeps, History-IsIndexed}
use mathlib.Core.Option

abbrev storing : Aead
storing = record {
  nonce_size = 1;
  seal_with = λ nonce plain. plain;
  open_with = λ nonce cipher. some cipher;
}

abbrev draws : Draws
draws = record {
  token = some "t1";
  value = λ kind. some (1 ∷ 2 ∷ []);
  nonce = λ kind. some (9 ∷ []);
}

draws-HasNonces : HasNonces storing draws
draws-HasNonces kind nonce h = let same : (9 ∷ []) ≡ nonce = cc h in rw (sym same) refl

abbrev texts : Texts
texts = record { trim_space = λ t. t; nocase = λ t. t; is_uuid = λ value. true }

abbrev input : CreateInput
input = record {
  name = "ada";
  note = "";
  expires_at = some 50;
  service_ids = 3 ∷ [];
  credentials = λ kind. none;
  quota_bytes = some (pos 80);
  max_devices = none;
  max_ips = none;
  max_connections = none;
}

abbrev panel : Tables
panel = record {
  nodes = (7, pos 20000) ∷ [];
  services = (3, record { node_id = 7; enabled = true; usage_coefficient = pos 10000 }) ∷ [];
  subjects = [];
  grants = [];
  credentials = [];
  sellers = [];
  owners = [];
}

abbrev ada : Subject
ada = new_subject input "ada" "t1" 10

abbrev stored : CredentialKind → Credential
stored kind = record {
  subject_id = 1;
  kind = kind;
  value_enc = 9 ∷ 1 ∷ 2 ∷ [];
  rotation = 0;
  created_at = 10;
}

abbrev with_ada : Tables
with_ada = record panel {
  subjects = (1, ada) ∷ [];
  grants = (1, 3) ∷ [];
  credentials = stored uuid ∷ stored password ∷ [];
}

create_subject_run : create_subject texts (some storing) draws input 10 panel ≡ ok (1, with_ada)
unfolding create_subject create_in_box has_name clashes has_token chosen generate_credential
    put_credential upsert_credential grant grant_all has_grant Maps.get Maps.fresh_id
    String_discrete ℕ_discrete
create_subject_run = refl

create_subject-Created_example :
    (get_row 1 panel ≡ none)
    × (◌≢◌ {A = String} "ada" "")
    × Created texts storing draws input 10 "ada" panel 1 with_ada
create_subject-Created_example =
    create_subject-Created texts storing draws input 10 panel 1 with_ada (λ nonce plain. refl)
      draws-HasNonces create_subject_run

abbrev rotated : Tables
rotated = record with_ada {
  credentials = record (stored uuid) { rotation = 1; created_at = 20 } ∷ stored password ∷ [];
}

rotate_run : rotate storing draws 1 uuid 20 with_ada ≡ ok (1 ∷ 2 ∷ [], rotated)
unfolding rotate generate_credential put_credential upsert_credential Maps.get ℕ_discrete
rotate_run = refl

rotate-credential_example :
    (credential (some storing) 1 uuid rotated ≡ ok (1 ∷ 2 ∷ []))
    × ((j : ℕ) (k : CredentialKind)
        → (j ≢ 1) ⊎ (k ≢ uuid)
        → credential (some storing) j k rotated ≡ credential (some storing) j k with_ada)
rotate-credential_example =
    rotate-credential storing draws 1 uuid (1 ∷ 2 ∷ []) 20 with_ada rotated (λ nonce plain. refl)
      draws-HasNonces rotate_run

panel-IsIndexed : IsIndexed texts panel
unfolding Maps.get
panel-IsIndexed = (λ i j s t k h. absurd (cc h), λ i j s t k h. absurd (cc h))

History-IsIndexed_example :
    IsIndexed texts (retire_all 60 (due_subjects 60 rotated.subjects) rotated)
History-IsIndexed_example =
    History-IsIndexed texts storing panel (retire_all 60 (due_subjects 60 rotated.subjects) rotated)
      (λ nonce plain. refl) panel-IsIndexed
      (later
        (later (later start (creates draws input 10 1 draws-HasNonces create_subject_run))
          (rotates draws 1 uuid (1 ∷ 2 ∷ []) 20 draws-HasNonces rotate_run))
        (sweeps 60))

-- The other tables are a log of the nodes that were republished.
abbrev commit : ℕ → Tables → List ℕ → Outcome (Unit {0}) (Option ℕ) × List ℕ
commit node db log = (ok (some 2), node ∷ log)

abbrev notify : ℕ → ℕ → List ℕ → List ℕ
notify node revision log = log

with_ada-IsKeyed : IsKeyed with_ada.subjects
unfolding Maps.get
with_ada-IsKeyed = (refl, tt)

sweep-due_example :
    (due_subjects 60 (sweep commit notify 60 with_ada []).1.subjects ≡ [])
    × ((j : ℕ)
        → get_row j (sweep commit notify 60 with_ada []).1
          ≡ Option.map (swept 60) (get_row j with_ada))
    × ((sweep commit notify 60 with_ada []).0 ≡ length (due_subjects 60 with_ada.subjects))
sweep-due_example = sweep-due commit notify 60 with_ada [] with_ada-IsKeyed

contains-head : (n : ℕ) (log : List ℕ) → contains ℕ_discrete n (n ∷ log) ≡ true
unfolding contains
contains-head n log = ground arith

contains-tail :
    (n m : ℕ) (log : List ℕ)
    → contains ℕ_discrete n log ≡ true
    → contains ℕ_discrete n (m ∷ log) ≡ true
unfolding contains
contains-tail n m log h = ground arith

ada_row : get_row 1 with_ada ≡ some ada
unfolding Maps.get ℕ_discrete
ada_row = refl

service_row :
    Maps.get ℕ_discrete 3 with_ada.services
    ≡ some (record { node_id = 7; enabled = true; usage_coefficient = pos 10000 })
unfolding Maps.get ℕ_discrete
service_row = refl

ada_granted : has_grant 1 3 with_ada.grants ≡ true
unfolding has_grant
ada_granted = refl

sweep-republishes_example : contains ℕ_discrete 7 (sweep commit notify 60 with_ada []).2 ≡ true
sweep-republishes_example =
    sweep-republishes commit notify (λ n log. contains ℕ_discrete n log ≡ true) 60 with_ada [] 1 3
      ada (record { node_id = 7; enabled = true; usage_coefficient = pos 10000 })
      (λ n t log. contains-head n log) (λ n m t log h. contains-tail n m log h) (λ n m r log h. h)
      with_ada-IsKeyed ada_row refl service_row ada_granted

with_ada-IsUnique : IsUnique token_key with_ada.subjects
unfolding Maps.get
with_ada-IsUnique i j s t k h h' _ _ = ground arith

abbrev revoked : Tables
revoked = record with_ada { subjects = (1, record ada { subscription_token = "t12" }) ∷ [] }

revoke_token_run : revoke_token (some "t12") 1 with_ada ≡ ok ("t12", revoked)
unfolding revoke_token write_token clashes has_token Maps.get Maps.modify String_discrete ℕ_discrete
revoke_token_run = refl

named : ◌≢◌ {A = String} "t12" ""
named h = cc h

moved : ◌≢◌ {A = String} "t12" "t1"
moved h = cc h

revoke_token-lookup_example :
    (lookup_by_token "t12" revoked ≡ ok 1) × (lookup_by_token "t1" revoked ≡ err no_token)
revoke_token-lookup_example =
    revoke_token-lookup (some "t12") 1 "t12" ada with_ada revoked with_ada-IsKeyed with_ada-IsUnique
      ada_row refl named moved revoke_token_run
