-- ===== src/Constants/Table.antt =====
-- rustygear/src/constants.rs: `PTYPES`, the table of packet types by number.
use Prim.Native.String.{String}
use rustygear.Prelude.{ℕ, List, [], ◌∷◌}
use rustygear.Prelude.Int.{ℤ, pos, negsuc}

pub record PacketType : Type 0 where
  pub name : String
  pub ptype : ℕ
  pub nargs : ℤ

abbrev row : String → ℕ → ℤ → PacketType
row n t a = record { name = n; ptype = t; nargs = a }

abbrev pub ptypes : List PacketType
ptypes =
    row "__UNUSED__" 0 (negsuc 0)
    ∷ row "CAN_DO" 1 (pos 0)
    ∷ row "CANT_DO" 2 (pos 0)
    ∷ row "RESET_ABILITIES" 3 (negsuc 0)
    ∷ row "PRE_SLEEP" 4 (negsuc 0)
    ∷ row "__UNUSED__" 5 (negsuc 0)
    ∷ row "NOOP" 6 (negsuc 0)
    ∷ row "SUBMIT_JOB" 7 (pos 2)
    ∷ row "JOB_CREATED" 8 (pos 0)
    ∷ row "GRAB_JOB" 9 (negsuc 0)
    ∷ row "NO_JOB" 10 (negsuc 0)
    ∷ row "JOB_ASSIGN" 11 (pos 2)
    ∷ row "WORK_STATUS" 12 (pos 2)
    ∷ row "WORK_COMPLETE" 13 (pos 1)
    ∷ row "WORK_FAIL" 14 (pos 0)
    ∷ row "GET_STATUS" 15 (pos 0)
    ∷ row "ECHO_REQ" 16 (pos 0)
    ∷ row "ECHO_RES" 17 (pos 1)
    ∷ row "SUBMIT_JOB_BG" 18 (pos 2)
    ∷ row "ERROR" 19 (pos 1)
    ∷ row "STATUS_RES" 20 (pos 4)
    ∷ row "SUBMIT_JOB_HIGH" 21 (pos 2)
    ∷ row "SET_CLIENT_ID" 22 (pos 0)
    ∷ row "CAN_DO_TIMEOUT" 23 (pos 1)
    ∷ row "ALL_YOURS" 24 (negsuc 0)
    ∷ row "WORK_EXCEPTION" 25 (pos 1)
    ∷ row "OPTION_REQ" 26 (pos 0)
    ∷ row "OPTION_RES" 27 (pos 0)
    ∷ row "WORK_DATA" 28 (pos 1)
    ∷ row "WORK_WARNING" 29 (pos 1)
    ∷ row "GRAB_JOB_UNIQ" 30 (negsuc 0)
    ∷ row "JOB_ASSIGN_UNIQ" 31 (pos 3)
    ∷ row "SUBMIT_JOB_HIGH_BG" 32 (pos 2)
    ∷ row "SUBMIT_JOB_LOW" 33 (pos 2)
    ∷ row "SUBMIT_JOB_LOW_BG" 34 (pos 2)
    ∷ row "SUBMIT_JOB_SCHED" 35 (pos 7)
    ∷ row "SUBMIT_JOB_EPOCH" 36 (pos 3)
    ∷ row "SUBMIT_REDUCE_JOB" 37 (pos 3)
    ∷ row "SUBMIT_REDUCE_JOB_BACKGROUND" 38 (pos 3)
    ∷ row "GRAB_JOB_ALL" 39 (negsuc 0)
    ∷ row "JOB_ASSIGN_ALL" 40 (pos 4)
    ∷ row "GET_STATUS_UNIQUE" 41 (pos 0)
    ∷ row "STATUS_RES_UNIQUE" 42 (pos 5)
    ∷ []
