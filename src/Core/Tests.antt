-- ===== src/Core/Tests.antt =====
-- The theorems of the core crate at concrete inputs, with a toy cipher and a toy serializer that
-- meet the laws: the cipher appends sixteen zeros, the serializer knows one shape of metadata.
pub mod Streams
use mathlib.Core.Logic.{ite, if_pos, if_neg}
use native.Mathlib.Decide.{ℕ_discrete}
use scrigno.Prelude.{
  ℕ, ◌-◌, ◌≡◌, ◌≢◌, refl, sym, ap, ◌∙◌, arith, Option, none, some, [], ◌∷◌, ◌++◌, map, length,
  length-append, take, take-append_exact, ok, ◌>>=◌,
}
use scrigno.Prelude.Bytes.{Bytes, codes}
use scrigno.Prelude.Options.{some-eq-some}
use scrigno.Core.{VaultId, DocId, KeyslotId, MasterKey, Dek, Kek, Aead, AeadLaws}
use scrigno.Core.Kdf.{KdfParams, argon2id}
use scrigno.Core.Recovery.{generate_code, parse_code, clean, is_whitespace}
use scrigno.Core.Recovery.RoundTrip.{parse_code-generate_code}
use scrigno.Codec.Crockford.{to_ascii_uppercase}
use scrigno.Core.Wrap.{WrappedKey, IsValid, wrap_mk, unwrap_mk, mk_aad, dek_aad}
use scrigno.Core.Wrap.Keys.{aad_binds, unwrap_mk-wrap_mk}
use scrigno.Core.Meta.{DocMeta, Json, JsonLaws, EncMeta, seal, from_bytes, open_meta}
use scrigno.Core.Meta.Sealing.{open_meta-seal}

abbrev pub zeros : ℕ → Bytes
zeros ℕ.zero = []
zeros (ℕ.suc n) = 0 ∷ zeros n

abbrev pub toy_aead : Aead
toy_aead = record {
  encrypt = λ key nonce aad text. some (text ++ zeros 16);
  decrypt = λ key nonce aad sealed. some (take (length sealed - 16) sealed);
}

toy_opens : (text : Bytes) → take (length (text ++ zeros 16) - 16) (text ++ zeros 16) ≡ text
toy_opens text =
    take-append_exact (length (text ++ zeros 16) - 16) text (zeros 16)
      (omega (arith, length-append text (zeros 16)))

pub toy_laws : AeadLaws toy_aead
toy_laws = record {
  decrypt-encrypt = λ key nonce aad text sealed h. rw (← some-eq-some h) (ap some (toy_opens text));
  length-encrypt =
      λ key nonce aad text sealed h. rw (← some-eq-some h) (length-append text (zeros 16));
  encrypts = λ key nonce aad text h. (text ++ zeros 16, refl);
}

abbrev note_of : ℕ → DocMeta
note_of n = record {
  v = 1;
  title = codes "Passaporto";
  tags = codes "personale" ∷ [];
  note = [];
  mime = codes "application/pdf";
  size = n;
  content_hash = codes "deadbeef";
  original_name = codes "scan.pdf";
  created_at = codes "2026-01-01T00:00:00Z";
  thumb = none;
}

DocMeta-discrete : Discrete DocMeta
DocMeta-discrete = hlevel ℕ_discrete

abbrev toy_to_vec : DocMeta → Option Bytes
toy_to_vec meta = ite (DocMeta-discrete meta (note_of meta.size)) (some (meta.size ∷ [])) none

abbrev toy_from_slice : Bytes → Option DocMeta
toy_from_slice [] = none
toy_from_slice (n ∷ rest) = some (note_of n)

abbrev toy_json : Json
toy_json = record { to_vec = toy_to_vec; from_slice = toy_from_slice }

toy_json_laws : JsonLaws toy_json
toy_json_laws = record {
  from_slice-to_vec = λ meta bytes h. elim (DocMeta-discrete meta (note_of meta.size)) [
    | yes same ↦
        let bs : meta.size ∷ [] ≡ bytes =
          some-eq-some (sym (if_pos (DocMeta-discrete meta (note_of meta.size)) same _ _) ∙ h) in
        rw (← bs) (ap some (sym same))
    | no other ↦
        cc
          (if_neg (DocMeta-discrete meta (note_of meta.size)) other (some (meta.size ∷ [])) none, h)
  ];
}

abbrev salt : Bytes
salt = zeros 16

abbrev default_params : KdfParams
default_params = record {
  alg = argon2id;
  m_kib = 65536;
  t = 3;
  p = 1;
  salt = record { bytes = salt };
}

parse_code-generate_code_example : (generate_code (some (zeros 32)) >>= parse_code) ≡ ok (zeros 32)
parse_code-generate_code_example = parse_code-generate_code (zeros 32) (omega arith) refl

typed_alike :
    map to_ascii_uppercase (clean (codes "ab-CD ef"))
    ≡ map to_ascii_uppercase (clean (codes "ABCDEF"))
unfolding clean is_whitespace
typed_alike = refl

abbrev zero_key : WrappedKey
zero_key = record { nonce = zeros 24; ciphertext = zeros 48 }

zero_key-IsValid : IsValid zero_key
zero_key-IsValid = record { nonce_length = refl; ciphertext_length = refl }

abbrev kek : Kek
kek = record { bytes = zeros 32 }

abbrev pub mk : MasterKey
mk = record { bytes = zeros 32 }

abbrev dek : Dek
dek = record { bytes = zeros 32 }

abbrev vault : VaultId
vault = record { uuid = 1 }

abbrev slot : KeyslotId
slot = record { uuid = 2 }

abbrev pub doc : DocId
doc = record { uuid = 3 }

unwrap_mk-wrap_mk_example :
    (w : WrappedKey) × (wrap_mk toy_aead kek vault slot mk (some (zeros 24)) ≡ ok w)
    × (unwrap_mk toy_aead kek vault slot w ≡ ok mk)
    × IsValid w
unwrap_mk-wrap_mk_example =
    unwrap_mk-wrap_mk toy_aead toy_laws kek vault slot mk (zeros 24) refl refl

open_meta-seal_example :
    (enc : EncMeta) × (seal toy_aead toy_json mk doc 1 (note_of 9) (some (zeros 24)) ≡ ok enc)
    × (from_bytes enc.bytes ≡ ok enc)
    × (open_meta toy_aead toy_json mk doc 1 enc ≡ ok (note_of 9))
open_meta-seal_example =
    open_meta-seal toy_aead toy_laws toy_json toy_json_laws mk doc 1 (note_of 9) (9 ∷ []) (zeros 24)
      (if_pos (DocMeta-discrete (note_of 9) (note_of 9)) refl _ _) (omega arith) refl
