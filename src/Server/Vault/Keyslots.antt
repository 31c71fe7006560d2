-- ===== src/Server/Vault/Keyslots.antt =====
-- The vault can always be opened: it never loses its last keyslot.
use scrigno.Prelude.{
  ltb, Option, some, false, ℕ, ◌+◌, ◌≡◌, ◌<◌, Bool, true, none, List, [], ◌∷◌, ok, length,
  length-append, arith, All, All-append,
}
use scrigno.Prelude.Bytes.{Bytes}
use scrigno.Server.{VaultRow, Uuid, Keyslot, Db}
use scrigno.Server.Vault.{
  NewKeyslot, CreateVaultRequest, is_kind, validate, keyslot_of, has_keyslot, remove_keyslot,
  create_vault, add_keyslot, delete_keyslot,
}

-- What a stored keyslot satisfies.
abbrev pub GoodKeyslot : (Bytes → Bool) → Keyslot → Type 0
GoodKeyslot is_object k =
    (is_kind k.kind ≡ true) × (0 < length k.wrapped_mk) × (is_object k.kdf ≡ true)

unfoldable pub exists_vault : Option VaultRow → Bool
exists_vault none = false
exists_vault (some _) = true

-- A vault that exists has a keyslot, one that does not has none, and every keyslot was validated.
pub record Openable (is_object : Bytes → Bool) (db : Db) : Type 0 where
  pub slots : exists_vault db.vault ≡ ltb 0 (length db.keyslots)
  pub good : All (GoodKeyslot is_object) db.keyslots

validate-GoodKeyslot :
    (is_object : Bytes → Bool) (new : NewKeyslot) (now : ℕ) (u : Unit {0})
    → validate is_object new ≡ ok u
    → GoodKeyslot is_object (keyslot_of new now)
unfolding validate keyslot_of
validate-GoodKeyslot is_object new now u h = ground arith

length-remove_keyslot :
    (id : Uuid) (ks : List Keyslot)
    → has_keyslot id ks ≡ true
    → length ks ≡ length (remove_keyslot id ks) + 1
unfolding has_keyslot remove_keyslot
length-remove_keyslot id [] h = ground arith
length-remove_keyslot id (k ∷ ks) h = ground (arith, length-remove_keyslot id ks)

remove_keyslot-All :
    (is_object : Bytes → Bool) (id : Uuid) (ks : List Keyslot)
    → All (GoodKeyslot is_object) ks
    → All (GoodKeyslot is_object) (remove_keyslot id ks)
unfolding remove_keyslot
remove_keyslot-All is_object id [] h = h
remove_keyslot-All is_object id (k ∷ ks) h = ground (arith, remove_keyslot-All is_object id ks)

-- A request to create a vault, whatever the answer, keeps a database openable: a vault that exists
-- has at least one keyslot, one that does not has none, and every keyslot has a known kind, a
-- wrapped key and a JSON object for its parameters.
pub create_vault-Openable :
    (is_object : Bytes → Bool) (body : CreateVaultRequest) (created_at slot_at : ℕ) (db : Db)
    → Openable is_object db
    → Openable is_object (create_vault is_object body created_at slot_at db).1
unfolding create_vault exists_vault
create_vault-Openable is_object body created_at slot_at db h = ground (
  arith,
  validate-GoodKeyslot is_object body.keyslot slot_at tt,
  All-append (GoodKeyslot is_object) db.keyslots (keyslot_of body.keyslot slot_at ∷ []),
  length-append db.keyslots (keyslot_of body.keyslot slot_at ∷ []),
)

-- A request to add a keyslot, whatever the answer, keeps a database openable: a vault that exists
-- has at least one keyslot, and every keyslot is one that was validated.
pub add_keyslot-Openable :
    (is_object : Bytes → Bool) (body : NewKeyslot) (now : ℕ) (db : Db)
    → Openable is_object db
    → Openable is_object (add_keyslot is_object body now db).1
unfolding add_keyslot exists_vault
add_keyslot-Openable is_object body now db h = ground (
  arith,
  validate-GoodKeyslot is_object body now tt,
  All-append (GoodKeyslot is_object) db.keyslots (keyslot_of body now ∷ []),
  length-append db.keyslots (keyslot_of body now ∷ []),
)

-- A request to delete a keyslot, whatever the answer, keeps a database openable: a vault that has
-- a keyslot never loses its last one.
pub delete_keyslot-Openable :
    (is_object : Bytes → Bool) (id : Uuid) (db : Db)
    → Openable is_object db
    → Openable is_object (delete_keyslot id db).1
unfolding delete_keyslot exists_vault
delete_keyslot-Openable is_object id db h =
    ground
      (arith, length-remove_keyslot id db.keyslots, remove_keyslot-All is_object id db.keyslots)
