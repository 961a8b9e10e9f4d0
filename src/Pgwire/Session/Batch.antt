-- ===== src/Pgwire/Session/Batch.antt =====
-- The batch of session.rs over any sequence of its operations.
use slateduck.Prelude.{
  ℕ, ◌+◌, ◌*◌, ◌≤◌, ◌≡◌, ◌↔◌, refl, List, [], ◌∷◌, ◌++◌, length, length-append, arith, ltb, false,
  Bool-cases, inl, inr,
}
use slateduck.Core.Result.{ok, err}
use slateduck.Pgwire.Session.{
  BufferedOp, PendingCatalogTxn, new, push, op_size, take_ops, clear, max_batch_size,
  batch_too_large,
}

-- The states that the operations lead to from an empty batch, each with the operations it accepted
-- since it was last empty.
pub data Reaches (size_of_op : ℕ) : List BufferedOp → PendingCatalogTxn → Type 0 where
  fresh : Reaches size_of_op [] new
  taken :
      (accepted : List BufferedOp) (txn : PendingCatalogTxn)
      → Reaches size_of_op accepted txn
      → Reaches size_of_op [] (take_ops txn).1
  cleared :
      (accepted : List BufferedOp) (txn : PendingCatalogTxn)
      → Reaches size_of_op accepted txn
      → Reaches size_of_op [] (clear txn)
  accepted :
      (before : List BufferedOp) (txn : PendingCatalogTxn) (op : BufferedOp)
      → Reaches size_of_op before txn
      → (push size_of_op txn op).0 ≡ ok tt
      → Reaches size_of_op (before ++ (op ∷ [])) (push size_of_op txn op).1
  refused :
      (before : List BufferedOp) (txn : PendingCatalogTxn) (op : BufferedOp)
      → Reaches size_of_op before txn
      → (push size_of_op txn op).0 ≡ err batch_too_large
      → Reaches size_of_op before (push size_of_op txn op).1

module _ (size_of_op : ℕ) where
  -- The batch holds what was accepted, and its estimate is the number of operations at one size each.
  pub record Holds (before : List BufferedOp) (txn : PendingCatalogTxn) : Type 0 where
    pub ops : txn.ops ≡ before
    pub estimate : txn.estimated_size ≡ length before * op_size size_of_op
    pub bounded : length before * op_size size_of_op ≤ max_batch_size

  new-Holds : Holds [] new
  unfolding new
  new-Holds = record { ops = refl; estimate = omega arith; bounded = omega arith }

  distribute : (m s : ℕ) → (m + 1) * s ≡ m * s + s
  distribute m s = grind arith

  one_more :
      (before : List BufferedOp) (op : BufferedOp)
      → length (before ++ (op ∷ [])) * op_size size_of_op
        ≡ length before * op_size size_of_op + op_size size_of_op
  one_more before op =
      rw (length-append before (op ∷ [])) (distribute (length before) (op_size size_of_op))

  push_ok :
      (txn : PendingCatalogTxn) (op : BufferedOp)
      → ((push size_of_op txn op).0 ≡ ok tt)
        ↔ (txn.estimated_size + op_size size_of_op ≤ max_batch_size)
  unfolding push
  push_ok txn op =
      elim (Bool-cases (ltb max_batch_size (txn.estimated_size + op_size size_of_op))) [
        | inl full ↦ rw full (λ e. cc, λ le. ground arith)
        | inr room ↦ rw room (λ e. ground arith, λ le. refl)
      ]

  push-Holds :
      (before : List BufferedOp) (txn : PendingCatalogTxn) (op : BufferedOp)
      → Holds before txn
      → (push size_of_op txn op).0 ≡ ok tt
      → Holds (before ++ (op ∷ [])) (push size_of_op txn op).1
  unfolding push
  push-Holds before txn op h e =
      let room : txn.estimated_size + op_size size_of_op ≤ max_batch_size = (push_ok txn op).0 e in
      let open_here : ltb max_batch_size (txn.estimated_size + op_size size_of_op) ≡ false =
        ground arith in
      rw open_here (record {
        ops = rw (h.ops) refl;
        estimate = omega (arith, h.estimate, one_more before op);
        bounded = omega (arith, h.estimate, one_more before op);
      })

  push_refused :
      (txn : PendingCatalogTxn) (op : BufferedOp)
      → (push size_of_op txn op).0 ≡ err batch_too_large
      → (push size_of_op txn op).1 ≡ txn
  unfolding push
  push_refused txn op e =
      elim (Bool-cases (ltb max_batch_size (txn.estimated_size + op_size size_of_op))) [
        | inl full ↦ rw full refl
        | inr room ↦ cc (rw room at e)
      ]

  Reaches-Holds :
      (before : List BufferedOp) (txn : PendingCatalogTxn)
      → Reaches size_of_op before txn
      → Holds before txn
  Reaches-Holds _ _ fresh = new-Holds
  Reaches-Holds _ _ (taken before txn r) = unfold take_ops in new-Holds
  Reaches-Holds _ _ (cleared before txn r) = unfold clear in new-Holds
  Reaches-Holds _ _ (accepted before txn op r e) =
      push-Holds before txn op (Reaches-Holds before txn r) e
  Reaches-Holds _ _ (refused before txn op r e) =
      rw (push_refused txn op e) (Reaches-Holds before txn r)

  -- In every state that pushes, takes and clears lead to from an empty batch, `take` returns the
  -- operations accepted since the batch was last emptied, in order; their number times the
  -- estimate for one is within the limit; and a push is accepted exactly if it leaves it so.
  pub Reaches-take_ops :
      (before : List BufferedOp) (txn : PendingCatalogTxn)
      → Reaches size_of_op before txn
      → ((take_ops txn).0 ≡ before)
        × (length before * op_size size_of_op ≤ max_batch_size)
        × ((op : BufferedOp)
            → ((push size_of_op txn op).0 ≡ ok tt)
              ↔ (length (before ++ (op ∷ [])) * op_size size_of_op ≤ max_batch_size))
  unfolding take_ops
  Reaches-take_ops before txn r =
      let h = Reaches-Holds before txn r in
      (
        h.ops,
        h.bounded,
        λ op.
            let fits = push_ok txn op in
            (
              λ e. omega (arith, fits.0 e, h.estimate, one_more before op),
              λ le. fits.1 (omega (arith, le, h.estimate, one_more before op)),
            ),
      )
