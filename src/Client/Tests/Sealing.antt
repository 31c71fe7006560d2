-- ===== src/Client/Tests/Sealing.antt =====
-- A document that goes through the blob cipher.
use scrigno.Prelude.{◌≡◌, refl, [], ◌∷◌, some, length, ok, arith}
use scrigno.Prelude.Bytes.{codes, join, starts_with}
use scrigno.Core.Tests.{toy_aead, toy_laws, zeros}
use scrigno.Core.Tests.Streams.{
  toy_stream, toy_stream_laws, memory_writer, memory_collects, memory_reader, memory_supplies,
  sizes,
}
use scrigno.Client.Vault.Cache.{open_doc}
use scrigno.Client.Vault.Edit.{Draws, new_meta, add}
use scrigno.Client.Vault.Sealed.{sealed_writer, sealed_reader, open_doc-add_sealed}
use scrigno.Client.Tests.{
  titled_json, titled_json_laws, to_vec_titled_lem, draws_of, vault, writer, bill,
}
use scrigno.Client.Tests.Syncing.{source}

abbrev draws : Draws
draws = record (draws_of 20) { blob = some (zeros 75) }

open_doc-add_sealed_example :
    (open_doc source
      (sealed_reader toy_aead toy_stream memory_writer memory_reader sizes (λ bytes. bytes))
      20
      51
      (
        (add toy_aead titled_json
            (sealed_writer toy_aead toy_stream memory_writer memory_reader writer.images
              (λ bytes. [])
              (λ content. content ∷ [])
              []
              (λ w. w))
            (codes "pdf")
            bill
            draws
            vault).1,
        0,
      )).0
    ≡ ok (codes "pdf")
unfolding new_meta starts_with memory_collects memory_supplies sealed_writer
open_doc-add_sealed_example =
    open_doc-add_sealed toy_aead toy_stream memory_writer memory_reader toy_laws toy_stream_laws
      memory_collects memory_supplies titled_json titled_json_laws writer.images (λ bytes. [])
      (λ content. content ∷ []) sizes [] (λ bytes. bytes) source (codes "pdf") (zeros 75) (zeros 24)
      bill draws 51 vault 0 refl refl refl refl (omega arith) (unfold join in refl) refl
      (λ bytes. refl) (λ k. omega arith)
      (λ bytes. (
        length bytes ∷ codes "Bolletta",
        to_vec_titled_lem (codes "Bolletta") (length bytes),
        omega arith,
      ))
