-- ===== src/Client/Http/Retries.antt =====
-- How often a call is sent.
use scrigno.Prelude.{
  ℕ, zero, suc, ◌+◌, ◌≤◌, ◌≡◌, refl, sym, ◌*◌, ◌^◌, ap, ◌∙◌, true, false, ltb, Bool-cases,
  Option-cases, ◌⊎◌, inl, inr, Result, ok, err, ok-eq-ok, arith,
}
use scrigno.Server.{Uuid, PutDocRequest}
use scrigno.Server.Vault.{NewKeyslot}
use scrigno.Client.{ClientError}
use scrigno.Client.Http.{
  Call, get_vault, get_changes, put_doc, delete_doc, post_vault, post_keyslot, Response, Transport,
  Wire, is_server_error, retry_attempts, backoff, retry_from, with_retry, send_once, read_with,
  http_create_vault, http_add_keyslot, http_put_doc, http_delete_doc, http_get_vault,
  http_get_changes,
}

-- A count of the calls that a transport sends.
pub record Counts {Remote : Type 0} (net : Transport Remote) : Type 0 where
  pub sent : Remote → ℕ
  pub sent-send : (call : Call) (remote : Remote) → sent (net.send call remote).1 ≡ sent remote + 1
  pub sent-sleep : (time : ℕ) (remote : Remote) → sent (net.sleep time remote) ≡ sent remote

module _ {Remote : Type 0} (net : Transport Remote) (counts : Counts net) where
  -- After `left` attempts at most there is an answer; it is a server error only after the last.
  pub record Ends (left : ℕ) (remote : Remote) (result : Result ClientError Response × Remote)
      : Type 0 where
    pub some_call : counts.sent remote + 1 ≤ counts.sent result.1
    pub few_calls : counts.sent result.1 ≤ counts.sent remote + left
    pub no_error :
        (resp : Response)
        → result.0 ≡ ok resp
        → (is_server_error resp.status ≡ false) ⊎ (counts.sent result.1 ≡ counts.sent remote + left)

  sent-backoff :
      (attempt : ℕ) (call : Call) (remote : Remote)
      → counts.sent (backoff net attempt (net.send call remote).1) ≡ counts.sent remote + 1
  unfolding backoff
  sent-backoff attempt call remote =
      counts.sent-sleep (200 * 2 ^ attempt) (net.send call remote).1 ∙ counts.sent-send call remote

  -- The attempts after the first, counted from before it.
  continued :
      (left : ℕ) (remote next : Remote) (result : Result ClientError Response × Remote)
      → counts.sent next ≡ counts.sent remote + 1
      → Ends left next result
      → Ends (suc left) remote result
  continued left remote next result start e = record {
    some_call = omega (arith, e.some_call);
    few_calls = omega (arith, e.few_calls);
    no_error =
        λ resp h. elim (e.no_error resp h) [ inl fine ↦ inl fine | inr last ↦ inr (omega arith) ];
  }

  -- One attempt, where those that follow it end well.
  retry_round :
      (left attempt : ℕ) (call : Call) (remote : Remote)
      → (let next = backoff net attempt (net.send call remote).1 in
          (ltb (attempt + 1) retry_attempts ≡ true
            → Ends left next (retry_from net left (attempt + 1) call next))
          → (ltb (attempt + 1) retry_attempts ≡ false → left ≡ 0)
          → Ends (suc left) remote (retry_from net (suc left) attempt call remote))
  unfolding retry_from
  retry_round left attempt call remote rest none_left =
      let one = counts.sent-send call remote in
      let next = backoff net attempt (net.send call remote).1 in
      let start = sent-backoff attempt call remote in
      let later = λ (more : ltb (attempt + 1) retry_attempts ≡ true).
        continued left remote next (retry_from net left (attempt + 1) call next) start
          (rest more) in
      elim (Option-cases (net.send call remote).0) [
        | inl n ↦ elim (Bool-cases (ltb (attempt + 1) retry_attempts)) [
          | inr last ↦
              rw (retry_from, n, last)
                (record {
                  some_call = omega (arith, one);
                  few_calls = omega (arith, one);
                  no_error = λ resp h. cc;
                })
          | inl more ↦ rw (retry_from, n, more) (later more)
        ]
        | inr (resp, n) ↦ elim (Bool-cases (is_server_error resp.status)) [
          | inr fine ↦
              rw (retry_from, n, fine)
                (record {
                  some_call = omega (arith, one);
                  few_calls = omega (arith, one);
                  no_error =
                      λ r h. inl (ap (λ x. is_server_error x.status) (sym (ok-eq-ok h)) ∙ fine);
                })
          | inl bad ↦ elim (Bool-cases (ltb (attempt + 1) retry_attempts)) [
            | inr last ↦
                rw (retry_from, n, bad, last)
                  (record {
                    some_call = omega (arith, one);
                    few_calls = omega (arith, one);
                    no_error = λ r h. inr (omega (arith, one, none_left last));
                  })
            | inl more ↦ rw (retry_from, n, bad, more) (later more)
          ]
        ]
      ]

  retry_from-Ends :
      (left attempt : ℕ) (call : Call) (remote : Remote)
      → attempt + suc left ≡ retry_attempts
      → Ends (suc left) remote (retry_from net (suc left) attempt call remote)
  retry_from-Ends zero attempt call remote total =
      retry_round zero attempt call remote (λ more. absurd (ground arith)) (λ last. refl)
  retry_from-Ends (suc left) attempt call remote total =
      retry_round (suc left) attempt call remote
        (λ more.
          retry_from-Ends left (attempt + 1) call (backoff net attempt (net.send call remote).1)
            (omega arith))
        (λ last. absurd (ground arith))

  -- A retried call is sent once at least and three times at most, and its answer is a server error
  -- only after the third.
  pub with_retry-Ends :
      (call : Call) (remote : Remote) → Ends retry_attempts remote (with_retry net call remote)
  unfolding with_retry
  with_retry-Ends call remote = retry_from-Ends 2 0 call remote refl

  read_with-sent :
      {A : Type 0} (parse : Response → Result ClientError A)
      (r : Result ClientError Response × Remote)
      → (read_with parse r).1 ≡ r.1
  read_with-sent parse (ok resp, remote) = refl
  read_with-sent parse (err e, remote) = refl

  module _ (wire : Wire) where
    -- The calls that write, of documents, the vault and keyslots, are sent exactly once, whatever comes
    -- back, and those that read once to three times.
    pub calls_bounds :
        (id : Uuid) (keyslot : NewKeyslot) (n m : ℕ) (body : PutDocRequest) (remote : Remote)
        → (counts.sent (http_put_doc net wire id n body remote).1 ≡ counts.sent remote + 1)
          × (counts.sent (http_delete_doc net wire id n remote).1 ≡ counts.sent remote + 1)
          × (counts.sent (http_create_vault net wire id keyslot remote).1 ≡ counts.sent remote + 1)
          × (counts.sent (http_add_keyslot net wire keyslot remote).1 ≡ counts.sent remote + 1)
          × (counts.sent remote + 1 ≤ counts.sent (http_get_vault net wire remote).1)
          × (counts.sent (http_get_vault net wire remote).1 ≤ counts.sent remote + 3)
          × (counts.sent remote + 1 ≤ counts.sent (http_get_changes net wire n m remote).1)
          × (counts.sent (http_get_changes net wire n m remote).1 ≤ counts.sent remote + 3)
    unfolding http_put_doc http_delete_doc http_create_vault http_add_keyslot http_get_vault
        http_get_changes send_once
    calls_bounds id keyslot n m body remote =
        let vault = with_retry-Ends get_vault remote in
        let page = with_retry-Ends (get_changes n m) remote in
        (
          simp read_with-sent (counts.sent-send (put_doc id n body) remote),
          simp read_with-sent (counts.sent-send (delete_doc id n) remote),
          simp read_with-sent (counts.sent-send (post_vault id keyslot) remote),
          simp read_with-sent (counts.sent-send (post_keyslot keyslot) remote),
          simp read_with-sent vault.some_call,
          simp read_with-sent vault.few_calls,
          simp read_with-sent page.some_call,
          simp read_with-sent page.few_calls,
        )
