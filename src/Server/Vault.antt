-- ===== src/Server/Vault.antt =====
-- routes/vault.rs and `NewKeyslot::validate` of models.rs: the vault row and its keyslots.
pub mod Keyslots
use scrigno.Prelude.{
  ℕ, ◌+◌, ◌≡◌, Bool, true, false, not, ◌&&◌, Option, none, some, List, [], ◌∷◌, ◌++◌, leb, ◌==◌,
  if◌then◌else◌, Result, ok, err, ok_or, ◌>>=◌, length,
}
use Prim.Native.String.{String}
use scrigno.Prelude.Bytes.{Bytes, codes, same_bytes}
use scrigno.Server.{
  Uuid, Keyslot, VaultRow, Db, ApiError, vault_not_initialised, vault_exists, last_keyslot,
  not_found, bad_request, internal, Handler,
}

pub record NewKeyslot : Type 0 where
  pub id : Uuid
  pub kind : Bytes
  pub kdf : Bytes
  pub wrapped_mk : Bytes

pub record CreateVaultRequest : Type 0 where
  pub id : Uuid
  pub keyslot : NewKeyslot

-- `Vault`: the row with its keyslots.
pub record Vault : Type 0 where
  pub id : Uuid
  pub created_at : ℕ
  pub keyslots : List Keyslot

unfoldable pub is_kind : Bytes → Bool
unfolding same_bytes
is_kind kind =
    if same_bytes kind (codes "passphrase") then true else same_bytes kind (codes "recovery")

-- `validate`; whether the JSON value `kdf` is an object is serde_json's to say.
validate : (Bytes → Bool) → NewKeyslot → Result ApiError (Unit {0})
unfolding is_kind
validate is_object new =
    if not (is_kind new.kind)
    then err (bad_request "keyslot.kind must be \"passphrase\" or \"recovery\"")
    else (if leb (length new.wrapped_mk) 0
        then err (bad_request "keyslot.wrapped_mk must not be empty")
        else (if not (is_object new.kdf)
            then err (bad_request "keyslot.kdf must be a JSON object")
            else ok tt))

keyslot_of : NewKeyslot → ℕ → Keyslot
keyslot_of new now = record {
  id = new.id;
  kind = new.kind;
  kdf = new.kdf;
  wrapped_mk = new.wrapped_mk;
  created_at = now;
}

-- `ORDER BY created_at ASC`.
insert_by_age : Keyslot → List Keyslot → List Keyslot
insert_by_age k [] = k ∷ []
insert_by_age k (l ∷ ls) =
    if leb k.created_at l.created_at then k ∷ l ∷ ls else l ∷ insert_by_age k ls

by_age : List Keyslot → List Keyslot
unfolding insert_by_age
by_age [] = []
by_age (k ∷ ks) = insert_by_age k (by_age ks)

pub get_vault : Handler Vault
unfolding by_age
get_vault db = (
  do
    row ← ok_or db.vault vault_not_initialised
    ok (record { id = row.id; created_at = row.created_at; keyslots = by_age db.keyslots }),
  db,
)

has_keyslot : Uuid → List Keyslot → Bool
has_keyslot id [] = false
has_keyslot id (k ∷ ks) = if k.id == id then true else has_keyslot id ks

remove_keyslot : Uuid → List Keyslot → List Keyslot
remove_keyslot id [] = []
remove_keyslot id (k ∷ ks) = if k.id == id then ks else k ∷ remove_keyslot id ks

-- `created_at` and `slot_at` are the two readings of the clock. The insert of a keyslot whose id is
-- taken breaks the primary key.
unfoldable pub create_vault : (Bytes → Bool) → CreateVaultRequest → ℕ → ℕ → Handler Vault
unfolding validate keyslot_of has_keyslot
create_vault is_object body created_at slot_at db = elim (validate is_object body.keyslot) [
  | err e ↦ (err e, db)
  | ok _ ↦ elim db.vault [
    | some _ ↦ (err vault_exists, db)
    | none ↦
        if has_keyslot body.keyslot.id db.keyslots
        then (err internal, db)
        else (let slot = keyslot_of body.keyslot slot_at in
            (
              ok (record { id = body.id; created_at = created_at; keyslots = slot ∷ [] }),
              record db {
                vault = some (record { id = body.id; created_at = created_at });
                keyslots = db.keyslots ++ slot ∷ [];
              },
            ))
  ]
]

unfoldable pub add_keyslot : (Bytes → Bool) → NewKeyslot → ℕ → Handler Keyslot
unfolding validate keyslot_of has_keyslot
add_keyslot is_object body now db = elim (validate is_object body) [
  | err e ↦ (err e, db)
  | ok _ ↦ elim db.vault [
    | none ↦ (err vault_not_initialised, db)
    | some _ ↦
        if has_keyslot body.id db.keyslots
        then (err internal, db)
        else (let slot = keyslot_of body now in
            (ok slot, record db { keyslots = db.keyslots ++ slot ∷ [] }))
  ]
]

unfoldable pub delete_keyslot : Uuid → Handler (Unit {0})
unfolding has_keyslot remove_keyslot
delete_keyslot id db = elim db.vault [
  | none ↦ (err vault_not_initialised, db)
  | some _ ↦
      if leb (length db.keyslots) 1
      then (err last_keyslot, db)
      else (if has_keyslot id db.keyslots
          then (ok tt, record db { keyslots = remove_keyslot id db.keyslots })
          else (err not_found, db))
]
