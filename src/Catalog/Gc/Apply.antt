-- ===== src/Catalog/Gc/Apply.antt =====
-- `gc_apply` of gc.rs with its retries.
use slateduck.Prelude.{ℕ, ◌-◌, ◌<◌, ◌≤◌, ◌≡◌, refl, false, List, [], ◌∷◌, arith, All}
use slateduck.Prelude.Bytes.{Bytes, bytes_eq, bytes_eq_refl}
use slateduck.Core.Result.{ok, err, CatalogResult}
use slateduck.Core.BigEndian.{IsU64}
use slateduck.Core.Values.{Message, encode_counter}
use slateduck.Core.Values.RoundTrip.{decode_counter-encode_counter}
use slateduck.Core.Rows.{SnapshotLeaseRow}
use slateduck.Catalog.Kv.{Kv}
use slateduck.Catalog.Gc.{
  GcApplyResult, Outcome, unchanged, advance, Round, read_retain_from, retain_from_key,
  counter_or_zero, gc_attempt, gc_apply, finish, retry, kept,
}
use slateduck.Catalog.Gc.Attempt.{MayAdvance, Decided, gc_attempt-Decided}

module _ (kv : Kv) (codec : Message SnapshotLeaseRow) where
  open kv use {Db, get, put, get-put}

  -- What a `gc_apply` that returned `r` did to the state `db` at the time `now`.
  pub record Done (db : Db) (now : ℕ) (r : GcApplyResult) (db' : Db) : Type 0 where
    pub previous : read_retain_from kv db ≡ ok r.previous_retain_from
    pub grows : r.previous_retain_from ≤ r.new_retain_from
    pub hidden : r.snapshots_hidden ≡ r.new_retain_from - r.previous_retain_from
    pub floor : read_retain_from kv db' ≡ ok r.new_retain_from
    pub allowed :
        r.previous_retain_from < r.new_retain_from
        → MayAdvance kv codec db now r.previous_retain_from r.new_retain_from
    pub others : (k : Bytes) → bytes_eq retain_from_key k ≡ false → get db' k ≡ get db k

  abbrev pub Ends : Db → ℕ → CatalogResult GcApplyResult × Db → Type 0
  Ends db now (ok r, db') = Done db now r db'
  Ends db now (err e, db') = db' ≡ db

  written :
      (db : Db) (floor : ℕ)
      → IsU64 floor
      → read_retain_from kv (put db retain_from_key (encode_counter floor)) ≡ ok floor
  unfolding read_retain_from
  written db floor h =
      rw (get-put db, bytes_eq_refl, counter_or_zero, decode_counter-encode_counter floor h)

  -- The round that is the last: it commits, or it has nothing to commit.
  finish-Ends :
      (db : Db) (floor now : ℕ) (d : CatalogResult Outcome)
      → IsU64 floor
      → ((o : Outcome) → d ≡ ok o → Decided kv codec db now floor o)
      → Ends db now (finish kv db floor d)
  unfolding finish kept
  finish-Ends db floor now (err e) h dec = refl
  finish-Ends db floor now (ok (unchanged c)) h dec = record {
    previous = (dec (unchanged c) refl).0;
    grows = omega arith;
    hidden = omega arith;
    floor = (dec (unchanged c) refl).0;
    allowed = λ lt. absurd (omega arith);
    others = λ k ne. refl;
  }
  finish-Ends db floor now (ok (advance c)) h dec =
      let m : MayAdvance kv codec db now c floor = dec (advance c) refl in
      record {
        previous = m.read;
        grows = omega (arith, m.grows);
        hidden = refl;
        floor = written db floor h;
        allowed = λ lt. m;
        others = λ k ne. rw (get-put db, ne);
      }

  last_round :
      (db : Db) (floor now : ℕ) → IsU64 floor → Ends db now (gc_apply kv codec db floor [] now)
  unfolding gc_apply
  last_round db floor now h =
      finish-Ends db floor now (gc_attempt kv codec db now floor) h
        (gc_attempt-Decided kv codec db now floor)

  -- The clock of a round is not ahead of `now`, and the other writers keep `Q`.
  abbrev pub Calm : (Db → Type 0) → ℕ → Round kv codec → Type 0
  Calm Q now r = (r.0 ≤ now) × ((d : Db) → Q d → Q (r.1 d))

  -- The state and the time of the round that ended the loop.
  pub record EndedAt (Q : Db → Type 0) (now : ℕ) (result : CatalogResult GcApplyResult × Db)
      : Type 0 where
    pub seen : Db
    pub time : ℕ
    pub not_later : time ≤ now
    pub holds : Q seen
    pub ends : Ends seen time result

  retry-EndedAt :
      (Q : Db → Type 0) (db : Db) (floor t now : ℕ) (d : CatalogResult Outcome)
      (next : CatalogResult GcApplyResult × Db)
      → t ≤ now
      → Q db
      → Ends db t (finish kv db floor d)
      → EndedAt Q now next
      → EndedAt Q now (retry kv db d next)
  unfolding finish retry kept
  retry-EndedAt Q db floor t now (err e) next le q end rest = record {
    seen = db;
    time = t;
    not_later = le;
    holds = q;
    ends = end;
  }
  retry-EndedAt Q db floor t now (ok (unchanged c)) next le q end rest = record {
    seen = db;
    time = t;
    not_later = le;
    holds = q;
    ends = end;
  }
  retry-EndedAt Q db floor t now (ok (advance c)) next le q end rest = rest

  -- However many commits conflict, a `gc_apply` to a u64 ends as one round on a state that it saw,
  -- at a time not after `now`, and that state has every property which the store had at first and
  -- the other writers keep. In that round an error leaves the state as it was. A result reports
  -- the floor of the state as the previous one, never lowers it, moves it only if every pin is
  -- above the new floor and no live lease is below it, leaves the new floor stored, and touches no
  -- other key.
  pub gc_apply-EndedAt :
      (Q : Db → Type 0) (db : Db) (floor now : ℕ) (rounds : List (Round kv codec))
      → IsU64 floor
      → Q db
      → All (Calm Q now) rounds
      → EndedAt Q now (gc_apply kv codec db floor rounds now)
  unfolding gc_apply
  gc_apply-EndedAt Q db floor now [] h q calm = record {
    seen = db;
    time = now;
    not_later = omega arith;
    holds = q;
    ends = last_round db floor now h;
  }
  gc_apply-EndedAt Q db floor now ((t, others) ∷ rounds) h q calm =
      retry-EndedAt Q db floor t now (gc_attempt kv codec db t floor) _ calm.0.0 q
        (last_round db floor t h)
        (gc_apply-EndedAt Q (others db) floor now rounds h (calm.0.1 db q) calm.1)
