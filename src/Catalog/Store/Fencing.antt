-- ===== src/Catalog/Store/Fencing.antt =====
-- The claim of the epoch in `open` of store.rs, and the writers that come after it.
use slateduck.Prelude.{
  ℕ, suc, Bool, ◌+◌, ◌^◌, ◌≡◌, ◌≤◌, ◌⊎◌, refl, sym, ap, ◌∙◌, false, Option, some, List, [], ◌∷◌,
  ◌==◌, arith, inl, inr, Bool-cases, ltb,
}
use slateduck.Prelude.Bytes.{Bytes, bytes_eq, bytes_eq_refl}
use slateduck.Core.Result.{
  ok, err, CatalogResult, CatalogError, writer_epoch_mismatch, >>=-eq-ok, >>=-eq-err, ok_injective,
}
use slateduck.Core.BigEndian.{IsU64}
use slateduck.Core.Values.{encode_counter}
use slateduck.Core.Values.RoundTrip.{decode_counter-encode_counter}
use slateduck.Core.Tags.{system_writer_epoch, system_writer_nonce}
use slateduck.Core.Rows.{Codecs}
use slateduck.Core.Keys.System.{key_system}
use slateduck.Catalog.Kv.{
  Kv, Pair, put_all, written_avoided, get-put_all, Avoids, after_rounds, StoppedAt,
}
use slateduck.Catalog.Gc.{counter_or_zero}
use slateduck.Catalog.Writer.{CatalogWriter, check_epoch, create_snapshot, drained}
use slateduck.Catalog.Writer.Commit.{create_snapshot-refused}
use slateduck.Catalog.Writer.Fence.{Holds}
use slateduck.Catalog.Store.{next_epoch, claim, lost_race, acquire_epoch}

epoch_key_avoids_nonce :
    bytes_eq (key_system system_writer_nonce) (key_system system_writer_epoch) ≡ false
unfolding key_system bytes_eq
epoch_key_avoids_nonce = refl

module _ (kv : Kv) where
  open kv use {Db, get, put, get-put}

  -- The claim of the epoch `e` took the state `seen` to `db'`.
  pub record Claimed (seen : Db) (nonce : Bytes) (e : ℕ) (db' : Db) : Type 0 where
    pub previous : ℕ
    pub read : counter_or_zero (get seen (key_system system_writer_epoch)) ≡ ok previous
    pub next : e ≡ previous + 1
    pub fits : IsU64 e
    pub epoch : get db' (key_system system_writer_epoch) ≡ some (encode_counter e)
    pub nonce_stored : get db' (key_system system_writer_nonce) ≡ some nonce
    pub others :
        (k : Bytes)
        → bytes_eq (key_system system_writer_epoch) k ≡ false
        → bytes_eq (key_system system_writer_nonce) k ≡ false
        → get db' k ≡ get seen k

  -- The stored epoch cannot be read, or has no successor that is a u64.
  abbrev pub Unclaimable : CatalogError → Db → Type 0
  Unclaimable e seen =
      (counter_or_zero (get seen (key_system system_writer_epoch)) ≡ err e)
      ⊎ ((p : ℕ) × (counter_or_zero (get seen (key_system system_writer_epoch)) ≡ ok p)
          × (2 ^ 64 ≤ p + 1))

  -- The round that commits comes after all that conflict, and sees what the others wrote in them.
  abbrev pub ClaimedBy : Db → Bytes → List (Db → Db) → CatalogResult ℕ × Db → Type 0
  ClaimedBy db nonce rounds (ok e, db') = Claimed (after_rounds db rounds) nonce e db'
  ClaimedBy db nonce rounds (err e, db') = StoppedAt (Unclaimable e) db rounds db'

  next_epoch-eq-ok :
      (db : Db) (e : ℕ)
      → next_epoch kv db ≡ ok e
      → (p : ℕ) × (counter_or_zero (get db (key_system system_writer_epoch)) ≡ ok p)
        × (e ≡ p + 1)
        × IsU64 e
  unfolding next_epoch
  next_epoch-eq-ok db e h =
      let (p, r, h1) = >>=-eq-ok (counter_or_zero (get db (key_system system_writer_epoch))) _ h in
      elim (Bool-cases (ltb (p + 1) (2 ^ 64))) [
        | inl below ↦ (
          p,
          r,
          sym (ok_injective (rw below at h1)),
          rw (← ok_injective (rw below at h1)) (ground arith),
        )
        | inr above ↦ cc (rw above at h1)
      ]

  next_epoch-eq-err : (db : Db) (e : CatalogError) → next_epoch kv db ≡ err e → Unclaimable e db
  unfolding next_epoch
  next_epoch-eq-err db e h =
      elim (>>=-eq-err (counter_or_zero (get db (key_system system_writer_epoch))) _ h) [
        | inl unread ↦ inl unread
        | inr (p, r, h1) ↦ elim (Bool-cases (ltb (p + 1) (2 ^ 64))) [
          | inl below ↦ cc (rw below at h1)
          | inr above ↦ inr (p, r, ground (arith, above))
        ]
      ]

  claim-ClaimedBy :
      (db : Db) (nonce : Bytes) (r : CatalogResult ℕ)
      → next_epoch kv db ≡ r
      → ClaimedBy db nonce [] (claim kv db nonce r)
  unfolding claim
  claim-ClaimedBy db nonce (err e) h = (0, refl, next_epoch-eq-err db e h)
  claim-ClaimedBy db nonce (ok e) h =
      let (p, r, n, fits) = next_epoch-eq-ok db e h in
      record {
        previous = p;
        read = r;
        next = n;
        fits = fits;
        epoch = rw (get-put, epoch_key_avoids_nonce, get-put, bytes_eq_refl);
        nonce_stored = rw (get-put, bytes_eq_refl);
        others = λ k a b. rw (get-put, b, get-put, a);
      }

  lost-ClaimedBy :
      (db : Db) (nonce : Bytes) (others : Db → Db) (rounds : List (Db → Db)) (r : CatalogResult ℕ)
      (next : CatalogResult ℕ × Db)
      → next_epoch kv db ≡ r
      → ClaimedBy (others db) nonce rounds next
      → ClaimedBy db nonce (others ∷ rounds) (lost_race kv db r next)
  unfolding lost_race
  lost-ClaimedBy db nonce others rounds (err e) next first h =
      (0, refl, next_epoch-eq-err db e first)
  lost-ClaimedBy db nonce others rounds (ok e) (ok a, db') first h = h
  lost-ClaimedBy db nonce others rounds (ok e) (err a, db') first (n, same, h) = (suc n, same, h)

  -- Whatever the others wrote in the rounds whose commits conflicted, an epoch that is returned is
  -- one more than the epoch stored after all of them, is a u64, stands in the store afterwards
  -- beside the caller's nonce, and every other key holds what they left. An error leaves the store
  -- as it was in some round, in which the stored epoch could not be read, with that error, or had
  -- no successor that is a u64.
  pub acquire_epoch-Claimed :
      (db : Db) (nonce : Bytes) (rounds : List (Db → Db))
      → ClaimedBy db nonce rounds (acquire_epoch kv db nonce rounds)
  unfolding acquire_epoch
  acquire_epoch-Claimed db nonce [] = claim-ClaimedBy db nonce (next_epoch kv db) refl
  acquire_epoch-Claimed db nonce (others ∷ rounds) =
      lost-ClaimedBy db nonce others rounds (next_epoch kv db) _ refl
        (acquire_epoch-Claimed (others db) nonce rounds)

  Claimed-of :
      (db : Db) (nonce : Bytes) (rounds : List (Db → Db)) (r : CatalogResult ℕ × Db) (e : ℕ)
      → r.0 ≡ ok e
      → ClaimedBy db nonce rounds r
      → Claimed (after_rounds db rounds) nonce e r.1
  Claimed-of db nonce rounds (ok a, db') e h c = rw (← ok_injective h) c
  Claimed-of db nonce rounds (err a, db') e h c = cc

  -- A store that names another nonce turns the writer away.
  turned_away :
      (w : CatalogWriter) (db : Db) (nonce : Bytes) (e : ℕ)
      → IsU64 e
      → get db (key_system system_writer_epoch) ≡ some (encode_counter e)
      → get db (key_system system_writer_nonce) ≡ some nonce
      → bytes_eq nonce w.writer_nonce ≡ false
      → check_epoch kv w db ≡ err writer_epoch_mismatch
  unfolding check_epoch
  turned_away w db nonce e fits g n differ = elim (Bool-cases (e == w.writer_epoch)) [
    | inl same ↦ rw (g, decode_counter-encode_counter e fits, same, n, differ)
    | inr other ↦ rw (g, decode_counter-encode_counter e fits, other)
  ]

  module _ (codecs : Codecs) where
    -- After a store was opened with the nonce `nonce`, and whatever was put since that leaves the
    -- epoch and the nonce alone, `create_snapshot` of every writer with another nonce fails with
    -- `writer_epoch_mismatch` and leaves the store as it is, even if its epoch number is the same.
    pub stale_writer_refused :
        (db : Db) (nonce : Bytes) (rounds : List (Db → Db)) (e : ℕ) (since : List Pair)
        (w : CatalogWriter) (time : Bytes) (author message : Option Bytes) (commits : Bool)
        → (acquire_epoch kv db nonce rounds).0 ≡ ok e
        → Avoids (key_system system_writer_epoch) since
        → Avoids (key_system system_writer_nonce) since
        → bytes_eq nonce w.writer_nonce ≡ false
        → create_snapshot kv codecs w
            (put_all kv (acquire_epoch kv db nonce rounds).1 since)
            time
            author
            message
            commits
          ≡ (
            err writer_epoch_mismatch,
            drained w,
            put_all kv (acquire_epoch kv db nonce rounds).1 since,
          )
    stale_writer_refused db nonce rounds e since w time author message commits h ea na differ =
        let c =
          Claimed-of db nonce rounds (acquire_epoch kv db nonce rounds) e h
            (acquire_epoch-Claimed db nonce rounds) in
        create_snapshot-refused kv codecs w _ time author message commits writer_epoch_mismatch (
          turned_away w (put_all kv (acquire_epoch kv db nonce rounds).1 since) nonce e c.fits
            (get-put_all kv _ since _ ∙ written_avoided _ since _ ea ∙ c.epoch)
            (get-put_all kv _ since _ ∙ written_avoided _ since _ na ∙ c.nonce_stored) differ)

    -- The writer with the epoch and the nonce of the last open holds the store after any puts that
    -- leave the two keys alone.
    pub holder_passes :
        (db : Db) (nonce : Bytes) (rounds : List (Db → Db)) (e : ℕ) (since : List Pair)
        (w : CatalogWriter)
        → (acquire_epoch kv db nonce rounds).0 ≡ ok e
        → Avoids (key_system system_writer_epoch) since
        → Avoids (key_system system_writer_nonce) since
        → w.writer_epoch ≡ e
        → w.writer_nonce ≡ nonce
        → Holds kv w (put_all kv (acquire_epoch kv db nonce rounds).1 since)
    holder_passes db nonce rounds e since w h ea na same_epoch same_nonce =
        let c =
          Claimed-of db nonce rounds (acquire_epoch kv db nonce rounds) e h
            (acquire_epoch-Claimed db nonce rounds) in
        record {
          epoch = (
            encode_counter e,
            get-put_all kv _ since _ ∙ written_avoided _ since _ ea ∙ c.epoch,
            decode_counter-encode_counter e c.fits ∙ ap ok (sym same_epoch),
          );
          nonce =
              get-put_all kv _ since _
              ∙ written_avoided _ since _ na
              ∙ c.nonce_stored
              ∙ ap some (sym same_nonce);
        }
