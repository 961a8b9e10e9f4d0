-- ===== src/Tests/Metadata.antt =====
-- A metadata entry of an application, at concrete inputs.
use slateduck.Prelude.{◌≡◌, refl, none, some, true, arith}
use slateduck.Core.Result.{ok}
use slateduck.Core.Tags.{codes}
use slateduck.Core.Rows.{MetadataRow}
use slateduck.Core.Keys.System.{MetadataScope}
use slateduck.Catalog.Writer.{
  CatalogWriter, create_snapshot, check_epoch, drained, commit_result, stage,
}
use slateduck.Catalog.Writer.Upkeep.{
  set_metadata, validate_app_metadata_key, splitn, is_empty, any_empty, has_dot,
}
use slateduck.Catalog.Reader.Objects.{get_metadata}
use slateduck.Catalog.Lifecycle.Metadata.{set_metadata_read}
use slateduck.Tests.Memory.{mem_kv}
use slateduck.Tests.Messages.{codecs}
use slateduck.Core.Values.{Message}
use slateduck.Tests.Format.{num, text, optional, ◌⊗◌, message}
use slateduck.Tests.Data.{held, writer}
use slateduck.Tests.Sessions.{holds_at, accepted}

abbrev metadata_codec : Message MetadataRow
metadata_codec =
    message (text ⊗ (text ⊗ ((optional text) ⊗ (optional num))))
      (λ (r : MetadataRow). (r.key, (r.value, (r.scope, r.scope_id))))
      (λ p. record { key = p.0; value = p.1.0; scope = p.1.1.0; scope_id = p.1.1.1 }) (λ r. refl)

abbrev setting : CatalogWriter
setting = (set_metadata metadata_codec MetadataScope.global 0 (codes "a.b.c") (codes "47") writer).1

set_ok :
    (set_metadata metadata_codec MetadataScope.global 0 (codes "a.b.c") (codes "47") writer).0
    ≡ ok tt
unfolding set_metadata validate_app_metadata_key splitn is_empty any_empty has_dot
set_ok = refl

setting_holds : check_epoch mem_kv setting held ≡ ok tt
unfolding set_metadata validate_app_metadata_key splitn is_empty any_empty has_dot stage
setting_holds = holds_at setting refl refl

metadata_example :
    (row : MetadataRow) × (get_metadata metadata_codec mem_kv
        (create_snapshot mem_kv codecs setting held (codes "t") none none true).2
        MetadataScope.global
        0
        (codes "a.b.c")
      ≡ ok (some row))
    × (row.key ≡ codes "a.b.c")
    × (row.value ≡ codes "47")
metadata_example =
    set_metadata_read mem_kv codecs metadata_codec writer held MetadataScope.global 0
      (codes "a.b.c") (codes "47") (codes "t") none none true
      (commit_result (drained setting) setting.counters.next_snapshot_id) (omega arith)
      (omega arith) set_ok (accepted setting held setting_holds)
