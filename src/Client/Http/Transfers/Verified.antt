-- ===== src/Client/Http/Transfers/Verified.antt =====
-- A transfer that succeeds has moved the bytes whose SHA-256 the server states.
use scrigno.Prelude.{
  ℕ, zero, suc, ◌+◌, ◌/◌, ◌%◌, ◌≤◌, ◌≡◌, ◌≢◌, refl, sym, ap, ◌∙◌, subst, Bool, true, false, ◌&&◌,
  Option, none, some, List, [], ◌∷◌, ◌++◌, length, All-append, ==_refl, leb, ltb, if◌then◌else◌,
  Bool-cases, Option-cases, ◌⊎◌, inl, inr, length-append, append_assoc, append-nil, All, Result, ok,
  arith,
}
use mathlib.Core.List.{reverse, reverse-cons, reverse-append, reverse-reverse}
use scrigno.Prelude.Bytes.{Bytes, join, same_bytes, same_bytes-eq, same_bytes_refl}
use scrigno.Server.{Uuid}
use scrigno.Server.Blobs.Upload.{to_hex, hex_digit-ne-quote}
use scrigno.Client.{ClientError}
use scrigno.Client.Http.{
  get_blob, Response, Transport, Wire, is_success, is_server_error, retry_attempts, backoff,
}
use scrigno.Client.Http.Transfers.{
  i64_max, hex_encode, trim_start, trim_matches, drain_loop, drain_to_file, Attempt, done, again,
  checked, download_attempt, download_from, get_blob_to_file,
}

drain_loop_lem :
    (chunks : List Bytes) (total : ℕ) (hashed file : Bytes)
    → drain_loop chunks total hashed file
      ≡ (total + length (join chunks), hashed ++ join chunks, file ++ join chunks)
unfolding drain_loop join
drain_loop_lem [] total hashed file =
    let e : total ≡ total + 0 = omega arith in rw (append-nil hashed, append-nil file, ← e) refl
drain_loop_lem (c ∷ cs) total hashed file =
    let e : total + length c + length (join cs) ≡ total + length (c ++ join cs) =
      omega (arith, length-append c (join cs)) in
    drain_loop_lem cs (total + length c) (hashed ++ c) (file ++ c)
    ∙ (λ i. (e i, append_assoc hashed c (join cs) i, append_assoc file c (join cs) i))

done_parts :
    {m n : ℕ} {s t : Bytes} {f g : Option Bytes}
    → done (ok (m, s)) f ≡ done (ok (n, t)) g
    → (m ≡ n) × (s ≡ t) × (f ≡ g)
done_parts h = (cc, cc, cc)

Attempt-cases :
    (a : Attempt)
    → ((r : Result ClientError (ℕ × Bytes)) × (file : Option Bytes) × (a ≡ done r file))
      ⊎ ((tmp : Option Bytes) × (a ≡ again tmp))
Attempt-cases (done r file) = inl (r, file, refl)
Attempt-cases (again tmp) = inr (tmp, refl)

module _ {Remote : Type 0} (net : Transport Remote) (wire : Wire) (sha256 : Bytes → Bytes) where
  -- The file holds the body of a whole, successful response, whose tag is the digest of the body.
  pub record Verified (size : ℕ) (sha : Bytes) (file : Option Bytes) : Type 0 where
    pub response : Response
    pub tag : Bytes
    pub success : is_success response.status ≡ true
    pub unbroken : response.broken ≡ false
    pub tagged : response.etag ≡ some tag
    pub stated : sha ≡ trim_matches b'"' tag
    pub digest : sha ≡ hex_encode (sha256 (join response.chunks))
    pub written : file ≡ some (join response.chunks)
    pub sized : length (join response.chunks) ≤ i64_max → size ≡ length (join response.chunks)

  checked-Verified :
      (more : Bool) (tag : Bytes) (resp : Response) (size : ℕ) (sha : Bytes) (file : Option Bytes)
      → is_success resp.status ≡ true
      → resp.etag ≡ some tag
      → checked net wire sha256 more (trim_matches b'"' tag) resp ≡ done (ok (size, sha)) file
      → Verified size sha file
  unfolding checked drain_to_file
  checked-Verified more tag resp size sha file success tagged h =
      let content = join resp.chunks in
      let drained = drain_loop_lem resp.chunks 0 [] [] in
      let total = ap (λ x. x.0) drained in
      let hashed = ap (λ x. x.1) drained in
      let written = ap (λ x. x.2) drained in
      elim (Bool-cases resp.broken) [
        | inl b ↦ elim (Bool-cases more) [
          | inl m ↦ cc (simp (checked, b, m) at h)
          | inr m ↦ cc (simp (checked, b, m) at h)
        ]
        | inr b ↦
            let mine = hex_encode (sha256 content) in
            elim (Bool-cases (same_bytes mine (trim_matches b'"' tag))) [
              | inr d ↦ cc (simp (checked, b, hashed, d) at h)
              | inl d ↦
                  let (s, t, f) = done_parts (simp (checked, b, total, hashed, written, d) at h) in
                  record {
                    response = resp;
                    tag = tag;
                    success = success;
                    unbroken = b;
                    tagged = tagged;
                    stated = sym t ∙ same_bytes-eq mine (trim_matches b'"' tag) d;
                    digest = sym t;
                    written = sym f;
                    sized = λ le. sym s ∙ small (length content) le;
                  }
            ]
      ]
    where
      small : (n : ℕ) → n ≤ i64_max → (if leb (0 + n) i64_max then 0 + n else i64_max) ≡ n
      small n le = ground arith

  -- What a download ends with, where it succeeds.
  Sound : (Result ClientError (ℕ × Bytes) × Option Bytes) → Type 0
  Sound (result, file) = (size : ℕ) (sha : Bytes) → result ≡ ok (size, sha) → Verified size sha file

  attempt-Sound :
      (more : Bool) (answer : Option Response) (tmp file : Option Bytes)
      (result : Result ClientError (ℕ × Bytes))
      → download_attempt net wire sha256 more answer tmp ≡ done result file
      → Sound (result, file)
  unfolding download_attempt Sound
  attempt-Sound true none tmp file result h size sha e = cc (simp (download_attempt, e) at h)
  attempt-Sound false none tmp file result h size sha e = cc (simp (download_attempt, e) at h)
  attempt-Sound more (some resp) tmp file result h size sha e =
      elim (Bool-cases (is_success resp.status)) [
        | inl s ↦ elim (Option-cases resp.etag) [
          | inl n ↦ cc (simp (download_attempt, s, n, e) at h)
          | inr (tag, t) ↦
              checked-Verified more tag resp size sha file s t
                (simp (download_attempt, s, t) at (h ∙ ap (λ r. done r file) e))
        ]
        | inr s ↦ elim (Bool-cases (is_server_error resp.status && more)) [
          | inl m ↦ cc (simp (download_attempt, s, m, e) at h)
          | inr m ↦ cc (simp (download_attempt, s, m, e) at h)
        ]
      ]

  download_from-Sound :
      (left attempt : ℕ) (id : Uuid) (tmp : Option Bytes) (remote : Remote)
      → Sound (download_from net wire sha256 left attempt id tmp remote).0
  unfolding download_from
  download_from-Sound zero attempt id tmp remote = unfold Sound in (λ size sha h. cc)
  download_from-Sound (suc left) attempt id tmp remote =
      let answer = (net.send (get_blob id) remote).0 in
      let remote' = (net.send (get_blob id) remote).1 in
      let more = ltb (attempt + 1) retry_attempts in
      elim (Attempt-cases (download_attempt net wire sha256 more answer tmp)) [
        | inl (result, file, e) ↦
            rw (download_from, e) (attempt-Sound more answer tmp file result e)
        | inr (tmp', e) ↦
            rw (download_from, e)
              (download_from-Sound left (attempt + 1) id tmp' (backoff net attempt remote'))
      ]

  -- A download that succeeds has put into the file the whole body of a successful response, whose
  -- SHA-256 is the response's tag without its quotes and the digest that is answered; the size is the
  -- body's, where that fits an `i64`.
  pub get_blob_to_file-Verified :
      (id : Uuid) (remote : Remote) (size : ℕ) (sha : Bytes)
      → (get_blob_to_file net wire sha256 id remote).0.0 ≡ ok (size, sha)
      → Verified size sha (get_blob_to_file net wire sha256 id remote).0.1
  unfolding get_blob_to_file Sound
  get_blob_to_file-Verified id remote size sha h =
      download_from-Sound retry_attempts 0 id none remote size sha h

abbrev Without : ℕ → Bytes → Type 0
Without c = All (λ b. b ≢ c)

Without-reverse : (c : ℕ) (text : Bytes) → Without c text → Without c (reverse text)
Without-reverse c [] h = tt
Without-reverse c (b ∷ bs) h =
    subst (Without c) (sym (reverse-cons b bs))
      (All-append (λ b. b ≢ c) (reverse bs) (b ∷ []) (Without-reverse c bs h.1) (h.0, tt))

trim_start-Without : (c : ℕ) (text : Bytes) → Without c text → trim_start c text ≡ text
unfolding trim_start
trim_start-Without c [] h = refl
trim_start-Without c (b ∷ bs) h = ground (arith, h.0)

trim_start_first : (c : ℕ) (text : Bytes) → trim_start c (c ∷ text) ≡ trim_start c text
unfolding trim_start
trim_start_first c text = rw (==_refl c) refl

trim_start_other : (c b : ℕ) (text : Bytes) → b ≢ c → trim_start c (b ∷ text) ≡ b ∷ text
unfolding trim_start
trim_start_other c b text h = ground arith

-- A text in quotes, without quotes inside.
trim_matches-quoted :
    (c : ℕ) (text : Bytes) → Without c text → trim_matches c (c ∷ (text ++ c ∷ [])) ≡ text
unfolding trim_matches
trim_matches-quoted c [] h =
    ap (λ x. reverse (trim_start c (reverse x)))
      (trim_start_first c (c ∷ []) ∙ trim_start_first c [])
    ∙ unfold trim_start in refl
trim_matches-quoted c (b ∷ bs) h =
    let text = b ∷ bs in
    let front : trim_start c (c ∷ (text ++ c ∷ [])) ≡ text ++ c ∷ [] =
      trim_start_first c (text ++ c ∷ []) ∙ trim_start_other c b (bs ++ c ∷ []) h.0 in
    let turned : reverse (text ++ c ∷ []) ≡ c ∷ reverse text = reverse-append text (c ∷ []) in
    let back : trim_start c (c ∷ reverse text) ≡ reverse text =
      trim_start_first c (reverse text)
      ∙ trim_start-Without c (reverse text) (Without-reverse c text h) in
    ap (λ x. reverse (trim_start c (reverse x))) front
    ∙ ap (λ x. reverse (trim_start c x)) turned
    ∙ ap reverse back
    ∙ reverse-reverse text

to_hex-Without : (bytes : Bytes) → Without b'"' (to_hex bytes)
unfolding to_hex
to_hex-Without [] = tt
to_hex-Without (b ∷ bs) =
    (hex_digit-ne-quote (b / 16), (hex_digit-ne-quote (b % 16), to_hex-Without bs))

module _ {Remote : Type 0} (net : Transport Remote) (wire : Wire) (sha256 : Bytes → Bytes) where
  checked-done :
      (more : Bool) (resp : Response)
      → resp.broken ≡ false
      → length (join resp.chunks) ≤ i64_max
      → checked net wire sha256 more (to_hex (sha256 (join resp.chunks))) resp
        ≡ done
            (ok (length (join resp.chunks), to_hex (sha256 (join resp.chunks))))
            (some (join resp.chunks))
  unfolding checked drain_to_file
  checked-done more resp whole small =
      let content = join resp.chunks in
      let drained = drain_loop_lem resp.chunks 0 [] [] in
      let first : 0 + length content ≡ length content = omega arith in
      let size = ap (λ x. x.0) drained ∙ first in
      let fits : leb (length content) i64_max ≡ true = ground arith in
      simp
        (checked, whole, size, ap (λ x. x.1) drained, ap (λ x. x.2) drained, fits, same_bytes_refl)

  attempt-done :
      (more : Bool) (tmp : Option Bytes) (resp : Response) (sha : Bytes)
      → is_success resp.status ≡ true
      → resp.etag ≡ some (b'"' ∷ (sha ++ b'"' ∷ []))
      → Without b'"' sha
      → download_attempt net wire sha256 more (some resp) tmp
        ≡ checked net wire sha256 more sha resp
  unfolding download_attempt
  attempt-done more tmp resp sha success tagged inside =
      simp (download_attempt, success, tagged, trim_matches-quoted b'"' sha inside)

  -- Where the first answer is a whole, successful response that states the digest of its body in
  -- quotes, as the server does, in whatever chunks the body comes, the download succeeds: with that
  -- digest, the body in the file and its length, where that fits an `i64`.
  pub get_blob_to_file-served :
      (id : Uuid) (remote : Remote) (resp : Response)
      → (net.send (get_blob id) remote).0 ≡ some resp
      → is_success resp.status ≡ true
      → resp.broken ≡ false
      → resp.etag ≡ some (b'"' ∷ (to_hex (sha256 (join resp.chunks)) ++ b'"' ∷ []))
      → length (join resp.chunks) ≤ i64_max
      → (get_blob_to_file net wire sha256 id remote).0 ≡ (
        ok (length (join resp.chunks), to_hex (sha256 (join resp.chunks))),
        some (join resp.chunks),
      )
  unfolding get_blob_to_file download_from
  get_blob_to_file-served id remote resp sent success whole tagged small =
      let sha = to_hex (sha256 (join resp.chunks)) in
      let made =
        ap (λ a. download_attempt net wire sha256 true a none) sent
        ∙ attempt-done true none resp sha success tagged
            (to_hex-Without (sha256 (join resp.chunks)))
        ∙ checked-done true resp whole small in
      rw (get_blob_to_file, download_from, made) refl
