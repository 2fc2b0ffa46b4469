-- ===== src/Keyspace/SetTests.antt =====
-- Concrete sets: an array of two numbers that takes a number and a word.
use ratatosk.Prelude.{◌*◌, ◌^◌, refl, none, [], ◌∷◌, arith}
use ratatosk.Prelude.Int.{pos, negsuc}
use ratatosk.Prelude.Eq.{list_eq, bytes_eq}
use ratatosk.Prelude.Sets.{contains}
use ratatosk.Prelude.Words.{Bytes}
use ratatosk.Keyspace.Value.{StoredValue, set_int, encoding, from_u8}
use ratatosk.Keyspace.SetValue.{set_insert_member, set_remove_member, stored_set}
use ratatosk.Keyspace.SetMembers.{
  IsSetValue, Gives, Inserted, Removed, set_insert_member-Inserted, set_remove_member-Removed,
}
use ratatosk.Keyspace.SetOf.{Stored, stored_set-Stored}

abbrev numbers : StoredValue
numbers = record {
  payload = set_int (negsuc 4 ∷ pos 12 ∷ []);
  deadline = pos 0;
  encoding_and_lru = 6 * 2 ^ 28;
}

numbers-IsSetValue : IsSetValue numbers
unfolding encoding from_u8
numbers-IsSetValue = record {
  well_formed = ((refl, (tt, tt)), (omega arith, (omega arith, tt)), omega arith);
  encoded = refl;
}

abbrev word : Bytes
word = b'x' ∷ []

abbrev seven : Bytes
seven = b'7' ∷ []

set_insert_member-Inserted_example : Gives (set_insert_member word numbers) (Inserted word numbers)
set_insert_member-Inserted_example = set_insert_member-Inserted word numbers numbers-IsSetValue

set_remove_member-Removed_example : Gives (set_remove_member seven numbers) (Removed seven numbers)
set_remove_member-Removed_example = set_remove_member-Removed seven numbers numbers-IsSetValue

stored_set-Stored_example : Stored (seven ∷ word ∷ []) (stored_set (seven ∷ word ∷ []) none)
unfolding contains bytes_eq
stored_set-Stored_example = stored_set-Stored (seven ∷ word ∷ []) none (refl, (refl, tt))
