-- ===== src/Catalog/Writer/Fence.antt =====
-- `check_epoch` of writer/snapshot.rs against the writer that the store names.
use slateduck.Prelude.{◌≡◌, ap, ◌∙◌, ◌↔◌, Option, none, some, ◌==◌, if◌then◌else◌, arith}
use slateduck.Prelude.Bytes.{Bytes, bytes_eq_iff, bytes_eq_refl}
use slateduck.Core.Result.{ok, err, map_err, ok_or, value, writer_epoch_mismatch, >>=-eq-ok}
use slateduck.Core.Values.{decode_counter}
use slateduck.Core.Tags.{system_writer_epoch, system_writer_nonce}
use slateduck.Core.Keys.System.{key_system}
use slateduck.Catalog.Kv.{Kv}
use slateduck.Catalog.Writer.{CatalogWriter, check_epoch}

ok_or-eq-ok : {E A : Type 0} (o : Option A) (e : E) {a : A} → ok_or o e ≡ ok a → o ≡ some a
ok_or-eq-ok none e h = cc
ok_or-eq-ok (some a) e h = cc

module _ (kv : Kv) where
  open kv use {Db, get}

  -- The store names this writer as the one that holds it.
  pub record Holds (w : CatalogWriter) (db : Db) : Type 0 where
    pub epoch :
        (v : Bytes) × (get db (key_system system_writer_epoch) ≡ some v)
        × (decode_counter v ≡ ok w.writer_epoch)
    pub nonce : get db (key_system system_writer_nonce) ≡ some w.writer_nonce

  check_epoch→Holds : (w : CatalogWriter) (db : Db) → check_epoch kv w db ≡ ok tt → Holds w db
  unfolding check_epoch
  check_epoch→Holds w db h =
      let (v, g, r1) =
        >>=-eq-ok (ok_or (get db (key_system system_writer_epoch)) writer_epoch_mismatch) _ h in
      let (e, d, r2) = >>=-eq-ok (map_err value (decode_counter v)) _ r1 in
      let (u, same, r3) =
        >>=-eq-ok (if e == w.writer_epoch then ok tt else err writer_epoch_mismatch) _ r2 in
      let (n, gn, r4) =
        >>=-eq-ok (ok_or (get db (key_system system_writer_nonce)) writer_epoch_mismatch) _ r3 in
      record {
        epoch = (v, ok_or-eq-ok _ _ g, ground (arith, d, same));
        nonce =
            ok_or-eq-ok _ _ gn ∙ ap some ((bytes_eq_iff n w.writer_nonce).0 (ground (arith, r4)));
      }

  Holds→check_epoch : (w : CatalogWriter) (db : Db) → Holds w db → check_epoch kv w db ≡ ok tt
  unfolding check_epoch
  Holds→check_epoch w db h =
      let (v, g, d) = h.epoch in ground (arith, g, d, h.nonce, bytes_eq_refl w.writer_nonce)

  -- The fence lets a writer through exactly if the stored epoch decodes to the writer's and the
  -- stored nonce is the writer's.
  pub check_epoch_iff : (w : CatalogWriter) (db : Db) → (check_epoch kv w db ≡ ok tt) ↔ Holds w db
  check_epoch_iff w db = (check_epoch→Holds w db, Holds→check_epoch w db)
