-- ===== src/Constants.antt =====
-- rustygear/src/constants.rs: the packet types, the magic codes and the queue priorities.
pub mod Table
use rustygear.Prelude.{ℕ, [], ◌∷◌, Bytes}

abbrev pub can_do : ℕ
can_do = 1

abbrev pub cant_do : ℕ
cant_do = 2

abbrev pub reset_abilities : ℕ
reset_abilities = 3

abbrev pub pre_sleep : ℕ
pre_sleep = 4

abbrev pub noop : ℕ
noop = 6

abbrev pub submit_job : ℕ
submit_job = 7

abbrev pub job_created : ℕ
job_created = 8

abbrev pub grab_job : ℕ
grab_job = 9

abbrev pub no_job : ℕ
no_job = 10

abbrev pub job_assign : ℕ
job_assign = 11

abbrev pub work_status : ℕ
work_status = 12

abbrev pub work_complete : ℕ
work_complete = 13

abbrev pub work_fail : ℕ
work_fail = 14

abbrev pub get_status : ℕ
get_status = 15

abbrev pub echo_req : ℕ
echo_req = 16

abbrev pub echo_res : ℕ
echo_res = 17

abbrev pub submit_job_bg : ℕ
submit_job_bg = 18

abbrev pub error : ℕ
error = 19

abbrev pub status_res : ℕ
status_res = 20

abbrev pub submit_job_high : ℕ
submit_job_high = 21

abbrev pub set_client_id : ℕ
set_client_id = 22

abbrev pub can_do_timeout : ℕ
can_do_timeout = 23

abbrev pub all_yours : ℕ
all_yours = 24

abbrev pub work_exception : ℕ
work_exception = 25

abbrev pub option_req : ℕ
option_req = 26

abbrev pub option_res : ℕ
option_res = 27

abbrev pub work_data : ℕ
work_data = 28

abbrev pub work_warning : ℕ
work_warning = 29

abbrev pub grab_job_uniq : ℕ
grab_job_uniq = 30

abbrev pub job_assign_uniq : ℕ
job_assign_uniq = 31

abbrev pub submit_job_high_bg : ℕ
submit_job_high_bg = 32

abbrev pub submit_job_low : ℕ
submit_job_low = 33

abbrev pub submit_job_low_bg : ℕ
submit_job_low_bg = 34

abbrev pub submit_job_sched : ℕ
submit_job_sched = 35

abbrev pub submit_job_epoch : ℕ
submit_job_epoch = 36

abbrev pub submit_reduce_job : ℕ
submit_reduce_job = 37

abbrev pub submit_reduce_job_background : ℕ
submit_reduce_job_background = 38

abbrev pub grab_job_all : ℕ
grab_job_all = 39

abbrev pub job_assign_all : ℕ
job_assign_all = 40

abbrev pub get_status_unique : ℕ
get_status_unique = 41

abbrev pub status_res_unique : ℕ
status_res_unique = 42

abbrev pub admin_unknown : ℕ
admin_unknown = 10000

abbrev pub admin_status : ℕ
admin_status = 10001

abbrev pub admin_version : ℕ
admin_version = 10002

abbrev pub admin_response : ℕ
admin_response = 10003

abbrev pub admin_workers : ℕ
admin_workers = 10004

abbrev pub priority_high : ℕ
priority_high = 0

abbrev pub priority_normal : ℕ
priority_normal = 1

abbrev pub priority_low : ℕ
priority_low = 2

abbrev pub magic_req : Bytes
magic_req = 0x00 ∷ b'R' ∷ b'E' ∷ b'Q' ∷ []

abbrev pub magic_res : Bytes
magic_res = 0x00 ∷ b'R' ∷ b'E' ∷ b'S' ∷ []
