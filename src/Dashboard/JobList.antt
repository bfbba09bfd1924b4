-- ===== src/Dashboard/JobList.antt =====
-- JobList.jsx of packages/dashboard/src/components: the filter, the page and the requests. A change of
-- the state and the effect that it causes are one step. Requests are numbered in the order in which
-- they are sent; the cleanup of the effect makes all but the newest one `cancelled`.
pub mod Pages
use distributed_job_queue.Base.{
  ℕ, suc, ◌+◌, ◌-◌, ◌/◌, max, String, Bool, true, false, ◌&&◌, not, Option, none, some, List, [],
  ◌∷◌, ◌==◌, leb, if◌then◌else◌,
}
use text.Mathlib.Text.{◌==◌ as str_eq}
use distributed_job_queue.Routes.Response.{JobBody}
use distributed_job_queue.Dashboard.Api.{Complaint}

-- The empty text is no filter.
pub record Query : Type 0 where
  pub status : String
  pub type : String
  pub page : ℕ

pub record ListPage : Type 0 where
  pub jobs : List JobBody
  pub total : ℕ

-- What a request comes to.
pub data Reply : Type 0 where
  listed : ListPage → Reply
  failed_with : Complaint → Reply

-- `newest` is the number of the last request, and `asked` its query.
pub record Pager : Type 0 where
  pub query : Query
  pub jobs : List JobBody
  pub total : ℕ
  pub loading : Bool
  pub error : Option Complaint
  pub newest : ℕ
  pub asked : Query

pub data Event : Type 0 where
  choose_status write_type : String → Event
  prev next refreshed : Event
  settled : (number : ℕ) → Event

abbrev pub page_size : ℕ
page_size = 10

-- `Math.max(1, Math.ceil(total / pageSize))`.
abbrev pub total_pages : ℕ → ℕ
total_pages total = max 1 ((total + (page_size - 1)) / page_size)

abbrev pub everything : Query
everything = record { status = ""; type = ""; page = 1 }

-- After the first effect.
unfoldable pub mounted : Pager
mounted = record {
  query = everything;
  jobs = [];
  total = 0;
  loading = true;
  error = none;
  newest = 0;
  asked = everything;
}

abbrev pub query_eq : Query → Query → Bool
query_eq a b = str_eq a.status b.status && str_eq a.type b.type && a.page == b.page

-- The effect: the old request is cancelled and a new one is sent.
abbrev pub reload : Query → Pager → Pager
reload q s = record s { query = q; asked = q; loading = true; newest = suc s.newest }

-- The effect runs where a dependency has changed; otherwise the state is as it was.
abbrev pub change : Query → Pager → Pager
change q s = if query_eq q s.query then s else reload q s

abbrev pub take_reply : Reply → Pager → Pager
take_reply (listed p) s = record s { jobs = p.jobs; total = p.total; error = none; loading = false }
take_reply (failed_with m) s = record s { error = some m; loading = false }

abbrev pub choose : String → Pager → Pager
choose v s = change (record s.query { status = v; page = 1 }) s

abbrev pub write : String → Pager → Pager
write v s = change (record s.query { type = v; page = 1 }) s

-- The buttons are disabled at the ends.
abbrev pub press_prev : Pager → Pager
press_prev s =
    if leb s.query.page 1 then s else change (record s.query { page = s.query.page - 1 }) s

abbrev pub press_next : Pager → Pager
press_next s =
    if leb (total_pages s.total) s.query.page
    then s
    else change (record s.query { page = s.query.page + 1 }) s

unfoldable pub react : (server : ℕ → Query → Reply) → Pager → Event → Pager
react server s (choose_status v) = choose v s
react server s (write_type v) = write v s
react server s prev = press_prev s
react server s next = press_next s
react server s refreshed = reload s.query s
react server s (settled n) = if n == s.newest then take_reply (server n s.asked) s else s

unfoldable pub react_all : (server : ℕ → Query → Reply) → Pager → List Event → Pager
unfolding react
react_all server s [] = s
react_all server s (e ∷ es) = react_all server (react server s e) es
