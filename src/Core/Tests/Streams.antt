-- ===== src/Core/Tests/Streams.antt =====
-- Blobs at concrete inputs: a stream whose tags are the position and the kind of a segment, and files
-- in memory.
use scrigno.Prelude.{
  ℕ, ◌+◌, ◌-◌, ◌≡◌, refl, sym, ap, ◌∙◌, Option, none, some, List, [], ◌∷◌, ◌++◌, length, take, drop,
  length-append, length-take, take-append_exact, take-append-drop, if◌then◌else◌, Bool-cases, inl,
  inr, ok, arith,
}
use scrigno.Prelude.Options.{some-eq-some}
use scrigno.Prelude.Bytes.{Bytes, codes, join, same_bytes, same_bytes-eq, same_bytes_refl}
use scrigno.Core.{Dek}
use scrigno.Core.Tests.{toy_aead, toy_laws, zeros, mk, doc}
use scrigno.Core.Wrap.{WrappedKey, unwrap_dek, open_wrapped}
use scrigno.Core.Stream.{Stream, StreamLaws, Writer, Collects, Reader, Supplies}
use scrigno.Core.Blob.{BlobDraws, build_header, build_aad, parse_header}
use scrigno.Core.Blob.Segments.{seal_body}
use scrigno.Core.Blob.Encrypting.{IsBlob, encrypt_parts, encrypt_parts-join}
use scrigno.Core.Blob.RoundTrip.{decrypt_all, decrypt_all-IsBlob, decrypt_all-encrypt_parts}
use scrigno.Core.Blob.Authentic.{Authentic}
use scrigno.Core.Blob.Accepted.{decrypt_all-Authentic}

abbrev pub tag : ℕ → ℕ → Bytes
tag kind n = n ∷ kind ∷ zeros 14

-- The text before a tag, where the tag is the right one.
unfoldable pub untag : ℕ → ℕ → Bytes → Option Bytes
untag kind n sealed =
    let text = take (length sealed - 16) sealed in
    if same_bytes sealed (text ++ tag kind n) then some text else none

untag-append : (kind n : ℕ) (text : Bytes) → untag kind n (text ++ tag kind n) ≡ some text
unfolding untag
untag-append kind n text =
    let same : take (length (text ++ tag kind n) - 16) (text ++ tag kind n) ≡ text =
      take-append_exact (length (text ++ tag kind n) - 16) text (tag kind n)
        (omega (arith, length-append text (tag kind n))) in
    rw (untag, same, same_bytes_refl (text ++ tag kind n)) refl

untag_sound :
    (kind n : ℕ) (sealed text : Bytes)
    → untag kind n sealed ≡ some text
    → text ++ tag kind n ≡ sealed
unfolding untag
untag_sound kind n sealed text h =
    let before = take (length sealed - 16) sealed in
    elim (Bool-cases (same_bytes sealed (before ++ tag kind n))) [
      | inl e ↦
          let same : before ≡ text = some-eq-some (rw (untag, e) at h) in
          ap (λ t. t ++ tag kind n) (sym same) ∙ sym (same_bytes-eq sealed (before ++ tag kind n) e)
      | inr e ↦ cc (rw (untag, e) at h)
    ]

abbrev pub opened_next : Option Bytes → ℕ → Option (Bytes × ℕ)
opened_next none n = none
opened_next (some text) n = some (text, n + 1)

abbrev pub toy_stream : Stream ℕ ℕ
toy_stream = record {
  new_encryptor = λ key prefix'. 0;
  encrypt_next = λ n aad text. some (text ++ tag 0 n, n + 1);
  encrypt_last = λ n aad text. some (text ++ tag 1 n);
  new_decryptor = λ key prefix'. 0;
  decrypt_next = λ n aad sealed. opened_next (untag 0 n sealed) n;
  decrypt_last = λ n aad sealed. untag 1 n sealed;
}

next_inverse :
    (n d' : ℕ) (text : Bytes) (o : Option Bytes)
    → opened_next o n ≡ some (text, d')
    → (o ≡ some text) × (n + 1 ≡ d')
next_inverse n d' text none h = cc
next_inverse n d' text (some t) h =
    (ap some (ap (λ x. x.0) (some-eq-some h)), ap (λ x. x.1) (some-eq-some h))

next_steps :
    (n m : ℕ) (text sealed : Bytes)
    → ◌≡◌ {A = Option (Bytes × ℕ)} (some (text ++ tag 0 n, n + 1)) (some (sealed, m))
    → (text ++ tag 0 n ≡ sealed) × (n + 1 ≡ m)
next_steps n m text sealed h = (ap (λ x. x.0) (some-eq-some h), ap (λ x. x.1) (some-eq-some h))

pub toy_stream_laws : StreamLaws toy_stream
toy_stream_laws = record {
  Paired = λ e d. e ≡ d;
  position = λ n. n;
  Paired-new = λ key prefix'. refl;
  position-new = λ key prefix'. refl;
  encrypts_next = λ n aad text p q. (text ++ tag 0 n, n + 1, refl);
  encrypts_last = λ n aad text q. (text ++ tag 1 n, refl);
  encrypt_next_steps = λ n m aad text sealed h. (
    sym (next_steps n m text sealed h).1,
    ap length (sym (next_steps n m text sealed h).0) ∙ length-append text (tag 0 n),
  );
  length-encrypt_last =
      λ n aad text sealed h. ap length (sym (some-eq-some h)) ∙ length-append text (tag 1 n);
  decrypt_next-encrypt_next = λ n m d aad text sealed same h. (
    n + 1,
    rw (← same, ← (next_steps n m text sealed h).0, untag-append 0 n text) refl,
    sym (next_steps n m text sealed h).1,
  );
  decrypt_last-encrypt_last =
      λ n d aad text sealed same h. rw (← same, ← some-eq-some h) (untag-append 1 n text);
  encrypt_next-decrypt_next = λ n d d' aad text sealed same h.
      let (o, p) = next_inverse d d' text (untag 0 d sealed) h in
      (n + 1, rw (untag_sound 0 n sealed text (rw same o)) refl, rw same p);
  encrypt_last-decrypt_last =
      λ n d aad text sealed same h. ap some (untag_sound 1 n sealed text (rw same h));
}

abbrev pub memory_writer : Writer Bytes
memory_writer = record { write_all = λ bytes s. (ok tt, s ++ bytes); flush = λ s. (ok tt, s) }

unfoldable pub memory_collects : Collects memory_writer
memory_collects = record {
  contents = λ s. s;
  write_all-ok = λ bytes s. refl;
  contents-write_all = λ bytes s. refl;
  flush-ok = λ s. refl;
  contents-flush = λ s. refl;
}

abbrev pub memory_reader : Reader Bytes
memory_reader = record { read = λ n s. (ok (take n s), drop n s) }

unfoldable pub memory_supplies : Supplies memory_reader
memory_supplies = record {
  contents = λ s. s;
  reads = λ n s. (
    take n s,
    refl,
    sym (take-append-drop n s),
    omega (arith, length-take n s),
    λ p q. omega (arith, length-take n s),
  );
}

abbrev parts : List Bytes
parts = codes "scri" ∷ [] ∷ codes "gno" ∷ []

abbrev draws : BlobDraws
draws = record { dek = some (zeros 32); nonce = some (zeros 24); prefix = some (zeros 19) }

-- One byte in a call.
abbrev pub sizes : ℕ → ℕ
sizes k = 1

encrypt_parts-join_example :
    (a : Bytes) × (b : Bytes) × (encrypt_parts toy_aead toy_stream memory_writer [] mk doc draws
        parts
      ≡ ok a)
    × (encrypt_parts toy_aead toy_stream memory_writer [] mk doc draws (join parts ∷ []) ≡ ok b)
    × (a ≡ b)
unfolding memory_collects
encrypt_parts-join_example =
    encrypt_parts-join toy_aead toy_stream memory_writer toy_stream_laws memory_collects toy_laws []
      mk doc (zeros 32) (zeros 24) (zeros 19) refl refl parts (unfold join in omega arith)

decrypt_all-encrypt_parts_example :
    (written : Bytes) × (encrypt_parts toy_aead toy_stream memory_writer [] mk doc draws parts
      ≡ ok written)
    × (decrypt_all toy_aead toy_stream memory_reader 100 sizes written mk doc ≡ ok (join parts))
unfolding memory_collects memory_supplies
decrypt_all-encrypt_parts_example =
    decrypt_all-encrypt_parts toy_aead toy_stream memory_writer memory_reader toy_laws
      toy_stream_laws memory_collects memory_supplies [] mk doc draws (zeros 32) (zeros 24)
      (zeros 19) parts (λ w. w) 100 sizes refl refl refl refl (unfold join in omega arith) refl
      (λ w. refl) (λ k. omega arith) (unfold join in omega arith)

abbrev wrapped : WrappedKey
wrapped = record { nonce = zeros 24; ciphertext = zeros 48 }

abbrev blob : Bytes
blob = build_header wrapped (zeros 19) ++ (codes "note" ++ tag 1 0)

blob-IsBlob : IsBlob toy_stream doc wrapped (zeros 32) (zeros 19) (codes "note") blob
unfolding seal_body join
blob-IsBlob = record {
  body = codes "note" ++ tag 1 0;
  parts = refl;
  seals = record {
    chunks = [];
    last = codes "note";
    full = tt;
    short = omega arith;
    whole = refl;
    sealed = refl;
  };
}

blob_opens : decrypt_all toy_aead toy_stream memory_reader 100 sizes blob mk doc ≡ ok (codes "note")
unfolding unwrap_dek open_wrapped memory_supplies build_header
blob_opens =
    decrypt_all-IsBlob toy_aead toy_stream memory_reader toy_stream_laws memory_supplies sizes
      (λ k. omega arith) 100 blob mk doc wrapped (zeros 32) (zeros 19) (codes "note") blob-IsBlob
      (record { nonce_length = refl; ciphertext_length = refl }) refl refl (omega arith)

decrypt_all-Authentic_example :
    (header : Bytes) × (body : Bytes) × (dek : Dek) × (prefix' : Bytes) × (blob ≡ header ++ body)
    × (parse_header toy_stream memory_reader toy_aead mk doc header ≡ ok (dek, prefix'))
    × Authentic toy_stream toy_stream_laws memory_reader memory_supplies
        (build_aad header doc)
        0
        (codes "note")
        body
unfolding memory_supplies
decrypt_all-Authentic_example =
    decrypt_all-Authentic toy_aead toy_stream toy_stream_laws memory_reader memory_supplies sizes
      (λ k. omega arith) 100 blob mk doc (codes "note") (omega arith) blob_opens
