-- ===== src/Job.antt =====
-- rustygear/src/job.rs, and the pointers by which the server shares a job.
use rustygear.Prelude.{ℕ, Bytes}

pub record Job : Type 0 where
  pub handle : Bytes
  pub fname : Bytes
  pub unique : Bytes
  pub payload : Bytes

unfoldable pub new : Bytes → Bytes → Bytes → Bytes → Job
new fname unique payload handle = record {
  handle = handle;
  fname = fname;
  unique = unique;
  payload = payload;
}

-- `Arc<Job>`, and `Weak<Job>` too: the number of the allocation, and the job that stands in it. A
-- job is never changed once it is allocated.
pub record Arc : Type 0 where
  pub alloc : ℕ
  pub job : Job
