-- ===== src/Core/Blob.antt =====
-- crates/scrigno-core/src/blob.rs: the encryptor and the decryptor of a blob. A method gives its
-- answer and the state it leaves, also on an error.
pub mod Segments
pub mod Writing
pub mod Encrypting
pub mod Reading
pub mod Decrypting
pub mod Consuming
pub mod RoundTrip
pub mod Authentic
pub mod Accepted
pub mod Sizes
use scrigno.Prelude.{
  ℕ, suc, zero, ◌+◌, ◌-◌, ◌*◌, Bool, true, false, not, Option, none, some, List, [], ◌∷◌, ◌++◌,
  length, take, drop, min, ltb, leb, ◌==◌, if◌then◌else◌, Result, ok, err, ok_or, ◌>>=◌,
}
use scrigno.Prelude.Bytes.{Bytes, codes, same_bytes}
use scrigno.Core.{
  malformed, unsupported_version, DocId, MasterKey, Dek, Aead, uuid_bytes, fill_random,
  generate_dek,
}
use scrigno.Core.Wrap.{WrappedKey, as_bytes, from_slice, wrap_dek, unwrap_dek, wrapped_key_len}
use scrigno.Core.Stream.{
  IoError, core, stream_failed, finished_stream, panic, to_io, Stream, Writer, Reader, read_up_to,
  read_exact,
}

abbrev magic : Bytes
magic = codes "SCRG"

abbrev version : ℕ
version = 0x01

abbrev pub stream_nonce_prefix_len : ℕ
stream_nonce_prefix_len = 19

abbrev pub header_len : ℕ
header_len = 4 + 1 + wrapped_key_len + stream_nonce_prefix_len

abbrev pub chunk_size : ℕ
chunk_size = 1048576

abbrev pub tag_len : ℕ
tag_len = 16

unfoldable pub build_header : WrappedKey → Bytes → Bytes
build_header wrapped_dek stream_nonce_prefix =
    magic ++ (version ∷ (as_bytes wrapped_dek ++ stream_nonce_prefix))

pub build_aad : Bytes → DocId → Bytes
build_aad header doc_id = header ++ uuid_bytes doc_id.uuid

pub record Encryptor (SealState W : Type 0) : Type 0 where
  pub writer : W
  pub stream : Option SealState
  pub aad : Bytes
  pub buf : Bytes

pub record Decryptor (OpenState R : Type 0) : Type 0 where
  pub reader : R
  pub stream : Option OpenState
  pub aad : Bytes
  pub out_buf : Bytes
  pub out_pos : ℕ
  pub pending : Option ℕ
  pub finished : Bool

-- The draws of `Encryptor::new`: the key, the nonce of the wrapped key, the prefix.
pub record BlobDraws : Type 0 where
  pub dek : Option Bytes
  pub nonce : Option Bytes
  pub prefix : Option Bytes

module _ {SealState OpenState : Type 0} (streams : Stream SealState OpenState) where
  module _ {W : Type 0} (io : Writer W) where
    pub from_parts : W → Bytes → Dek → Bytes → DocId → Encryptor SealState W
    from_parts writer header dek prefix doc_id = record {
      writer = writer;
      stream = some (streams.new_encryptor dek.bytes prefix);
      aad = build_aad header doc_id;
      buf = [];
    }

    -- The writer is dropped on an error.
    pub new_encryptor :
        Aead → W → MasterKey → DocId → BlobDraws → Result IoError (Encryptor SealState W)
    unfolding from_parts
    new_encryptor aead writer mk doc_id draws = do
      dek ← to_io (generate_dek draws.dek)
      wrapped_dek ← to_io (wrap_dek aead mk doc_id dek draws.nonce)
      prefix ← to_io (fill_random draws.prefix)
      let header = build_header wrapped_dek prefix
      let (answer, writer') = io.write_all header writer
      done ← answer
      ok (from_parts writer' header dek prefix doc_id)

    -- The buffer holds the sealed chunk until the writer has taken it.
    pub write_full_chunk : Encryptor SealState W → Result IoError (Unit {0}) × Encryptor SealState W
    write_full_chunk self = elim self.stream [
      | none ↦ (err finished_stream, self)
      | some e ↦ elim (streams.encrypt_next e self.aad self.buf) [
        | none ↦ (err stream_failed, self)
        | some (sealed, e') ↦
            let (answer, writer') = io.write_all sealed self.writer in
            elim answer [
              | err x ↦ (err x, record self { writer = writer'; stream = some e'; buf = sealed })
              | ok done ↦ (ok tt, record self { writer = writer'; stream = some e'; buf = [] })
            ]
      ]
    ]

    -- The loop of `write`. Each round but one takes a byte at least, so that one round more than the
    -- bytes is enough. `CHUNK_SIZE - buf.len()` overflows where the buffer holds a sealed chunk.
    write_loop :
        ℕ → Bytes → Encryptor SealState W → Result IoError (Unit {0}) × Encryptor SealState W
    write_loop zero bytes self = (ok tt, self)
    write_loop (suc fuel) [] self = (ok tt, self)
    write_loop (suc fuel) (b ∷ bs) self = elim (ltb chunk_size (length self.buf)) [
      | true ↦ (err panic, self)
      | false ↦
          let taken = min (chunk_size - length self.buf) (length (b ∷ bs)) in
          let self' = record self { buf = self.buf ++ take taken (b ∷ bs) } in
          elim (length self'.buf == chunk_size) [
            | false ↦ write_loop fuel (drop taken (b ∷ bs)) self'
            | true ↦
                let (answer, self'') = write_full_chunk self' in
                elim answer [
                  | err x ↦ (err x, self'')
                  | ok done ↦ write_loop fuel (drop taken (b ∷ bs)) self''
                ]
          ]
    ]

    pub write : Bytes → Encryptor SealState W → Result IoError ℕ × Encryptor SealState W
    write bytes self = elim self.stream [
      | none ↦ (err finished_stream, self)
      | some e ↦
          let (answer, self') = write_loop (suc (length bytes)) bytes self in
          elim answer [ err x ↦ (err x, self') | ok done ↦ (ok (length bytes), self') ]
    ]

    pub flush : Encryptor SealState W → Result IoError (Unit {0}) × Encryptor SealState W
    flush self =
        let (answer, writer') = io.flush self.writer in (answer, record self { writer = writer' })

    -- Gives the writer back.
    pub finish : Encryptor SealState W → Result IoError W
    finish self = do
      e ← ok_or self.stream finished_stream
      sealed ← ok_or (streams.encrypt_last e self.aad self.buf) stream_failed
      let (answer, writer') = io.write_all sealed self.writer
      done ← answer
      let (flushed, writer'') = io.flush writer'
      done ← flushed
      ok writer''

  module _ {R : Type 0} (io : Reader R) where
    -- The checks of the header, the document key and the prefix.
    pub parse_header : Aead → MasterKey → DocId → Bytes → Result IoError (Dek × Bytes)
    parse_header aead mk doc_id header =
        if not (same_bytes (take 4 header) magic)
        then err (core malformed)
        else if not (same_bytes (take 1 (drop 4 header)) (version ∷ []))
        then err (core unsupported_version)
        else do
          wrapped ← to_io (from_slice (take wrapped_key_len (drop 5 header)))
          dek ← to_io (unwrap_dek aead mk doc_id wrapped)
          ok (dek, drop (5 + wrapped_key_len) header)

    pub new_decryptor : Aead → R → MasterKey → DocId → Result IoError (Decryptor OpenState R)
    unfolding parse_header
    new_decryptor aead reader mk doc_id = do
      let (answer, reader') = read_exact io header_len reader
      header ← answer
      (dek, prefix) ← parse_header aead mk doc_id header
      ok (record {
        reader = reader';
        stream = some (streams.new_decryptor dek.bytes prefix);
        aad = build_aad header doc_id;
        out_buf = [];
        out_pos = 0;
        pending = none;
        finished = false;
      })

    abbrev pub pending_bytes : Option ℕ → Bytes
    pending_bytes none = []
    pending_bytes (some byte) = byte ∷ []

    -- Whether a segment is the last one: it is short, or a read of one more byte gives none. That byte
    -- is kept for the next segment.
    pub probe : Bytes → R → Result IoError (Bool × Option ℕ) × R
    probe ciphertext r = elim (ltb (length ciphertext) (chunk_size + tag_len)) [
      | true ↦ (ok (true, none), r)
      | false ↦
          let (answer, r') = io.read 1 r in
          elim answer [
            | err x ↦ (err x, r')
            | ok [] ↦ (ok (true, none), r')
            | ok (byte ∷ _) ↦ (ok (false, some byte), r')
          ]
    ]

    -- The part of `fill_next_segment` that opens the segment.
    pub open_segment :
        Bool → Bytes → Decryptor OpenState R → Result IoError (Unit {0}) × Decryptor OpenState R
    open_segment last ciphertext self = elim (ltb (length ciphertext) tag_len) [
      | true ↦ (err (core malformed), self)
      | false ↦ elim self.stream [
        | none ↦ (err finished_stream, self)
        | some d ↦ elim last [
          | true ↦ elim (streams.decrypt_last d self.aad ciphertext) [
            | none ↦ (err stream_failed, record self { stream = none })
            | some text ↦
                (ok tt, record self { stream = none; finished = true; out_buf = text; out_pos = 0 })
          ]
          | false ↦ elim (streams.decrypt_next d self.aad ciphertext) [
            | none ↦ (err stream_failed, self)
            | some (text, d') ↦
                (ok tt, record self { stream = some d'; out_buf = text; out_pos = 0 })
          ]
        ]
      ]
    ]

    pub fill_next_segment :
        Decryptor OpenState R → Result IoError (Unit {0}) × Decryptor OpenState R
    unfolding probe open_segment
    fill_next_segment self =
        let segment_len = chunk_size + tag_len in
        let (answer, r) =
          read_up_to io segment_len segment_len 8192 (pending_bytes self.pending) self.reader in
        elim answer [
          | err x ↦ (err x, record self { reader = r; pending = none })
          | ok ciphertext ↦
              let (probed, r') = probe ciphertext r in
              elim probed [
                | err x ↦ (err x, record self { reader = r'; pending = none })
                | ok (last, pending) ↦
                    open_segment last ciphertext (record self { reader = r'; pending = pending })
              ]
        ]

    -- The copy at the end of `read`, into a buffer of `n` bytes.
    copy_out : ℕ → Decryptor OpenState R → Bytes × Decryptor OpenState R
    copy_out n self =
        let available = drop self.out_pos self.out_buf in
        let taken = min (length available) n in
        (take taken available, record self { out_pos = self.out_pos + taken })

    pub read : ℕ → Decryptor OpenState R → Result IoError Bytes × Decryptor OpenState R
    unfolding copy_out
    read n self =
        if ltb self.out_pos (length self.out_buf)
        then (let (bytes, self') = copy_out n self in (ok bytes, self'))
        else if self.finished
        then (ok [], self)
        else (let (answer, self') = fill_next_segment self in
            elim answer [
              | err x ↦ (err x, self')
              | ok done ↦
                  if length self'.out_buf == 0
                  then (ok [], self')
                  else (let (bytes, self'') = copy_out n self' in (ok bytes, self''))
            ])
