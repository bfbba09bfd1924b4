-- ===== src/Samples.antt =====
-- A request, its row, and a state of the two services, for the tests.
use distributed_job_queue.Base.{ℕ, zero, suc, none, some, List, [], ◌∷◌}
use distributed_job_queue.Payload.{obj, end, field, str}
use distributed_job_queue.Job.{high, normal, queued, Row, Envelope}
use distributed_job_queue.Store.Command.{ListKey, processing, queue}
use distributed_job_queue.Store.View.{View}
use distributed_job_queue.Queue.{Request}

abbrev pub request_7 : Request
request_7 = record {
  type = "send_email";
  payload = some (obj (field "to" (str "a@b.c") (field "template" (str "flaky-demo") end)));
  priority = some high;
  delay = none;
  max_retries = some 2;
  idempotency_key = some 5;
}

abbrev pub envelope_7 : Envelope
envelope_7 = record {
  id = 7;
  type = "send_email";
  payload = obj (field "to" (str "a@b.c") (field "template" (str "flaky-demo") end));
  priority = high;
  attempt = 0;
  max_retries = 2;
}

abbrev pub row_7 : Row
row_7 = record {
  id = 7;
  type = "send_email";
  payload = obj (field "to" (str "a@b.c") (field "template" (str "flaky-demo") end));
  priority = high;
  status = queued;
  attempt = 0;
  max_retries = 2;
  idempotency_key = some 5;
  scheduled_for = none;
  created_at = 100;
  completed_at = none;
  error = none;
  worker_id = none;
}

abbrev pub empty_view : View
empty_view = record {
  lists = λ k. [];
  envelopes = λ i. none;
  beats = λ i. none;
  delayed_set = [];
  strings = λ k. none;
  workers = [];
  published = [];
  jobs = [];
  events = [];
  definitions = [];
  buckets = λ k. none;
}

abbrev pub two_queued : ListKey → List ℕ
two_queued (queue high) = 8 ∷ 7 ∷ []
two_queued (queue normal) = 9 ∷ []
two_queued _ = []

-- Job 7 is the oldest of the queue `high`.
abbrev pub queued_view : View
queued_view = record empty_view {
  lists = two_queued;
  envelopes = λ i. some envelope_7;
  jobs = row_7 ∷ [];
}

abbrev pub one_claimed : ListKey → List ℕ
one_claimed (processing (suc zero)) = 7 ∷ []
one_claimed _ = []

-- Worker 1 has claimed job 7.
abbrev pub claimed_7 : View
claimed_7 = record empty_view {
  lists = one_claimed;
  envelopes = λ i. some envelope_7;
  beats = λ i. some 100;
  jobs = row_7 ∷ [];
}
