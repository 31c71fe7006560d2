-- ===== src/Server/Blobs.antt =====
-- routes/blobs.rs: uploads and downloads. The object store is the list of its objects; whether one of
-- its calls succeeds, and what SHA-256 is, are parameters.
pub mod Range
pub mod Upload
pub mod Download
use scrigno.Prelude.{
  ℕ, ◌+◌, ◌*◌, ◌-◌, ◌^◌, ◌≡◌, Bool, true, false, Option, none, some, List, [], ◌∷◌, ◌++◌, All, ltb,
  leb, ◌==◌, ◌&&◌, if◌then◌else◌, Result, ok, err, length, take, drop,
}
use scrigno.Prelude.Bytes.{join, Bytes}
use scrigno.Server.{Uuid, BlobRow, Db, ApiError}

-- The objects, under the ids of their blobs (there is one vault).
pub record Object : Type 0 where
  pub id : Uuid
  pub content : Bytes

pub record State : Type 0 where
  pub db : Db
  pub objects : List Object

unfoldable pub find_object : Uuid → List Object → Option Bytes
find_object id [] = none
find_object id (o ∷ os) = if o.id == id then some o.content else find_object id os

-- SHA-256 as the crate gives it: a state that takes in the chunks one by one.
pub record Digest : Type 1 where
  pub Hasher : Type 0
  pub new : Hasher
  pub update : Hasher → Bytes → Hasher
  pub finalize : Hasher → Bytes

unfoldable pub absorb : (D : Digest) → D.Hasher → List Bytes → D.Hasher
absorb D h [] = h
absorb D h (c ∷ cs) = absorb D (D.update h c) cs

-- The digest of a text does not depend on the chunks in which it came.
unfoldable pub DigestLaws : (D : Digest) → (Bytes → Bytes) → Type 0
unfolding absorb join
DigestLaws D hash = (cs : List Bytes) → D.finalize (absorb D D.new cs) ≡ hash (join cs)

-- A row's object is there, with the row's size and digest.
abbrev pub Agrees : (Bytes → Bytes) → List Object → BlobRow → Type 0
Agrees hash objects row =
    (content : Bytes) × (find_object row.id objects ≡ some content)
    × (row.size ≡ length content)
    × (row.sha256 ≡ hash content)

unfoldable pub Sound : (Bytes → Bytes) → State → Type 0
Sound hash s = All (Agrees hash s.objects) s.db.blobs
