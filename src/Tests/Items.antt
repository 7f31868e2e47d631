-- ===== src/Tests/Items.antt =====
-- A race for one item: its owner initialises it, and takers 0 and 1 both read it.
use klsm.Base.{◌≡◌, refl, arith}
use klsm.Item.Races.{
  Race, Reach, start, later, initializes, takes_step, count, write_key, write_val, obtain, read_key,
  read_val, win,
}
use klsm.Item.Races.Once.{AllInTime, takes_once, take-contents}

-- Key 5 and value 50 under version 1.
abbrev ready_item : (r : Race) × Reach 0 0 r
ready_item = (
  _,
  later (later (later start (initializes (count 5 50 refl))) (initializes write_key))
      (initializes write_val),
)

-- Both takers have read the key and the value.
abbrev both_read : (r : Race) × Reach 0 0 r
both_read = (
  _,
  later
      (later
        (later
          (later
            (later (later ready_item.1 (takes_step 0 (obtain 1 (omega arith))))
              (takes_step 1 (obtain 1 (omega arith))))
            (takes_step 0 read_key))
          (takes_step 1 read_key))
        (takes_step 0 read_val))
      (takes_step 1 read_val),
)

both_in_time : AllInTime both_read.1
both_in_time = ((((((tt, tt), tt), tt), tt), tt), tt)

take-contents_example :
    (5 ≡ both_read.0.cell.keys 1) × (50 ≡ both_read.0.cell.vals 1) × (both_read.0.cell.takes 1 ≡ 0)
take-contents_example = take-contents both_read.1 both_in_time 1 1 5 50 refl (omega arith) refl

-- Taker 0 wins.
abbrev one_won : (r : Race) × Reach 0 0 r
one_won = (_, later both_read.1 (takes_step 0 (win refl)))

one_won_in_time : AllInTime one_won.1
one_won_in_time = (both_in_time, omega arith)

takes_once_example : one_won.0.cell.takes 1 ≡ 1
takes_once_example = takes_once one_won.1 one_won_in_time 1
