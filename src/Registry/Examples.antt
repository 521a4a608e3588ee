-- ===== src/Registry/Examples.antt =====
-- A small encoding that meets the assumption on JSON, and the registry's theorems at concrete calls
-- (pkg/registry/registry.go).
use qubicdb.Prelude.{
  ℕ, zero, suc, ◌≡◌, ◌≢◌, refl, true, false, Option, none, some, List, [], ◌∷◌, ◌++◌, Text,
  text_discrete, arith, bytes, length, take, drop, take-append, drop-append,
}
use qubicdb.Prelude.Assoc.{lookup, insert, delete}
use qubicdb.Registry.{
  Entry, Json, Store, Disk, Error, Result, ok, err, save, values, create, find_or_create, update,
  remove, new_entry, get, count, load_entries, new_store, FileRead, missing,
}
use qubicdb.Registry.Error.{persist_failed}
use qubicdb.Registry.Invariant.{
  IsValid, creates, finds, updates, removes, run, new_store-run-IsValid,
}
use qubicdb.Registry.Rollback.{
  Created, create-Created, Found, find_or_create-Found, Removed, remove-Removed,
}
use qubicdb.Registry.Update.{Changed, update-Changed, update_failed-ne}
use qubicdb.Registry.Durability.{JsonLaws, Synced, new_store-run-Synced}

-- the entries one after another, each with the length of its UUID
encode_entries : List (Entry ℕ) → Text
encode_entries [] = []
encode_entries (e ∷ es) =
    length e.uuid ∷ (e.uuid ++ (e.metadata ∷ e.created_at ∷ e.updated_at ∷ encode_entries es))

decode_fields : Text → Text → Option (Entry ℕ × Text)
decode_fields uuid (m ∷ c ∷ u ∷ rest) =
    some (record { uuid = uuid; metadata = m; created_at = c; updated_at = u }, rest)
decode_fields uuid _ = none

decode_entries : ℕ → Text → Option (List (Entry ℕ))
unfolding decode_fields
decode_entries zero rest = some []
decode_entries (suc n) [] = none
decode_entries (suc n) (k ∷ rest) = elim (decode_fields (take k rest) (drop k rest)) [
  | none ↦ none
  | some (e, rest') ↦
      let more = decode_entries n rest' in elim more [ none ↦ none | some es ↦ some (e ∷ es) ]
]

abbrev plain_json : Json ℕ
unfolding encode_entries decode_entries
plain_json = record {
  marshal = λ es. some (length es ∷ encode_entries es);
  unmarshal = elim [ [] ↦ none | n ∷ rest ↦ decode_entries n rest ];
}

fields_back :
    (e : Entry ℕ) (rest : Text)
    → let tail' = e.metadata ∷ e.created_at ∷ e.updated_at ∷ rest in
      decode_fields
        (take (length e.uuid) (e.uuid ++ tail'))
        (drop (length e.uuid) (e.uuid ++ tail'))
      ≡ some (e, rest)
unfolding decode_fields
fields_back e rest =
    let tail' = e.metadata ∷ e.created_at ∷ e.updated_at ∷ rest in
    rw (take-append e.uuid tail') (rw (drop-append e.uuid tail'))

decode-encode : (es : List (Entry ℕ)) → decode_entries (length es) (encode_entries es) ≡ some es
unfolding encode_entries decode_entries
decode-encode [] = refl
decode-encode (e ∷ es) =
    rw (fields_back e (encode_entries es), decode_entries) (rw (decode-encode es, decode_entries))

plain_laws : JsonLaws plain_json
unfolding encode_entries decode_entries
plain_laws = record { unmarshal_marshal = λ es d h. ground (arith, decode-encode es) }

registry_code : Unit {0}
unfolding encode_entries decode_entries decode_fields save values create find_or_create update
    remove new_entry get count load_entries new_store lookup insert delete text_discrete run
    qubicdb.Registry.add_entry qubicdb.Registry.change_entry qubicdb.Registry.rekey
    qubicdb.Registry.rollback qubicdb.Registry.is_taken qubicdb.Registry.Invariant.step
registry_code = tt

abbrev working : Disk
working = record { write_ok = true; rename_ok = true; left_behind = none }

abbrev full_disk : Disk
full_disk = record { write_ok = false; rename_ok = true; left_behind = some (1 ∷ []) }

abbrev no_store : Store ℕ
no_store = record { entries = []; file = none; tmp_file = none }

abbrev alice : Text
alice = bytes "alice"

abbrev bob : Text
bob = bytes "bob"

abbrev alice_entry : Entry ℕ
alice_entry = record { uuid = alice; metadata = 7; created_at = 100; updated_at = 100 }

-- the registry after `alice` was created
abbrev one_store : Store ℕ
one_store = record {
  entries = (alice, alice_entry) ∷ [];
  file = some (1 ∷ encode_entries (alice_entry ∷ []));
  tmp_file = none;
}

create-alice : create plain_json alice 7 100 working no_store ≡ (one_store, ok alice_entry)
unfolding registry_code
create-alice = refl

create_again : (create plain_json alice 8 200 working one_store).1 ≡ err Error.already_exists
unfolding registry_code
create_again = refl

create_full :
    create plain_json bob 8 200 full_disk one_store
    ≡ (record one_store { tmp_file = some (1 ∷ []) }, err persist_failed)
unfolding registry_code
create_full = refl

rename_alice :
    (update plain_json alice bob 9 300 working one_store).0.entries
    ≡ (bob, record { uuid = bob; metadata = 9; created_at = 100; updated_at = 300 }) ∷ []
unfolding registry_code
rename_alice = refl

create-Created_example :
    let (s', r) = create plain_json bob 8 200 full_disk one_store in
    Created plain_json full_disk (new_entry bob 8 200) one_store s' r
create-Created_example = create-Created plain_json bob 8 200 full_disk one_store

find_or_create-Found_example :
    let (s', r) = find_or_create plain_json bob 8 200 working one_store in
    Found plain_json working (new_entry bob 8 200) one_store s' r
find_or_create-Found_example = find_or_create-Found plain_json bob 8 200 working one_store

remove-Removed_example :
    let (s', r) = remove plain_json alice working one_store in
    Removed plain_json working alice one_store s' r
unfolding lookup
remove-Removed_example = remove-Removed plain_json alice working one_store (refl, tt)

update-Changed_example :
    let (s', r) = update plain_json alice bob 9 300 full_disk one_store in
    Changed plain_json full_disk alice bob 9 300 one_store s' r
update-Changed_example = update-Changed plain_json alice bob 9 300 full_disk one_store

-- the failed `Update` of the metadata of `alice` from 7 to 9
abbrev stale_store : Store ℕ
stale_store = (update plain_json alice alice 9 300 full_disk one_store).0

update_failed-ne_example : get alice stale_store ≢ get alice one_store
unfolding registry_code
update_failed-ne_example =
    update_failed-ne plain_json alice alice 9 300 full_disk one_store stale_store alice_entry refl
      refl (λ e. omega arith)

new_store-run-IsValid_example :
    IsValid (run plain_json (creates alice 7 100 working ∷ removes bob working ∷ []) no_store)
unfolding registry_code
new_store-run-IsValid_example =
    new_store-run-IsValid plain_json true missing none
      (creates alice 7 100 working ∷ removes bob working ∷ []) no_store refl

new_store-run-Synced_example : Synced plain_json (
    run plain_json
      (creates alice 7 100 working
        ∷ finds bob 8 150 full_disk
        ∷ updates alice bob 9 300 working
        ∷ [])
      no_store)
unfolding registry_code
new_store-run-Synced_example =
    new_store-run-Synced plain_json plain_laws none none no_store
      (creates alice 7 100 working
        ∷ finds bob 8 150 full_disk
        ∷ updates alice bob 9 300 working
        ∷ [])
      refl (tt, (tt, ((λ e. cc), tt)))
