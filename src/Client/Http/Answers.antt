-- ===== src/Client/Http/Answers.antt =====
-- A call that is answered at once.
use scrigno.Prelude.{ℕ, ◌≡◌, refl, ap, false, some, ok, err, ok_or}
use scrigno.Prelude.Bytes.{join}
use scrigno.Client.{server_contract}
use scrigno.Client.Http.{
  Call, get_changes, Response, Transport, Wire, is_server_error, with_retry, retry_from,
  parse_json_ok, map_error_response, http_get_changes,
}

module _ {Remote : Type 0} (net : Transport Remote) where
  with_retry-answer :
      (call : Call) (remote remote' : Remote) (resp : Response)
      → net.send call remote ≡ (some resp, remote')
      → is_server_error resp.status ≡ false
      → with_retry net call remote ≡ (ok resp, remote')
  unfolding with_retry retry_from
  with_retry-answer call remote remote' resp sent fine =
      rw (with_retry, retry_from, ap (λ x. x.0) sent, fine) (ap (λ x. (ok resp, x.1)) sent)

  pub http_get_changes-page :
      (wire : Wire) (since limit : ℕ) (remote remote' : Remote) (resp : Response)
      → net.send (get_changes since limit) remote ≡ (some resp, remote')
      → resp.status ≡ 200
      → resp.broken ≡ false
      → http_get_changes net wire since limit remote
        ≡ (ok_or (wire.parse_page (join resp.chunks)) server_contract, remote')
  unfolding http_get_changes parse_json_ok
  http_get_changes-page wire since limit remote remote' resp sent good whole =
      rw
        (
          http_get_changes,
          with_retry-answer (get_changes since limit) remote remote' resp sent (rw good refl),
          parse_json_ok,
          good,
          whole,
        )
        refl

  pub http_get_changes-refused :
      (wire : Wire) (since limit : ℕ) (remote remote' : Remote) (resp : Response)
      → net.send (get_changes since limit) remote ≡ (some resp, remote')
      → resp.status ≡ 400
      → http_get_changes net wire since limit remote ≡ (err (map_error_response wire resp), remote')
  unfolding http_get_changes parse_json_ok
  http_get_changes-refused wire since limit remote remote' resp sent bad =
      rw
        (
          http_get_changes,
          with_retry-answer (get_changes since limit) remote remote' resp sent (rw bad refl),
          parse_json_ok,
          bad,
        )
        refl
