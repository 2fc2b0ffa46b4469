-- ===== src/Command/Reply.antt =====
-- The replies of the handlers that are modelled. An error stands for its text in the source.
use ratatosk.Prelude.Int.{ℤ}

pub data Failure : Type 0 where
  wrong_arity no_such_key not_an_integer syntax_error db_out_of_range same_objects : Failure

pub data Reply : Type 0 where
  integer : ℤ → Reply
  ok : Reply
  err : Failure → Reply
