-- ===== src/Dashboard/JobList/Pages.antt =====
-- What JobList.jsx of packages/dashboard/src/components shows.
use distributed_job_queue.Base.{
  ℕ, ◌≤◌, ◌≡◌, refl, Bool, true, false, none, some, List, [], ◌∷◌, ◌==◌, leb, if◌then◌else◌, arith,
  ==_iff, subst,
}
use distributed_job_queue.Dashboard.JobList.{
  Query, Reply, listed, failed_with, Pager, Event, choose_status, write_type, prev, next, refreshed,
  settled, mounted, reload, change, take_reply, react, react_all, total_pages, query_eq,
}

-- The table is what the server answered to the given request, or its error is shown.
abbrev pub Shows : Reply → Pager → Type 0
Shows (listed p) s = (s.jobs ≡ p.jobs) × (s.total ≡ p.total) × (s.error ≡ none)
Shows (failed_with m) s = s.error ≡ some m

pub record IsCurrent (server : ℕ → Query → Reply) (s : Pager) : Type 0 where
  pub asked_now : s.asked ≡ s.query
  pub first_page : 1 ≤ s.query.page
  pub shows : s.loading ≡ false → Shows (server s.newest s.query) s

module _ (server : ℕ → Query → Reply) where
  reload-IsCurrent : (q : Query) (s : Pager) → 1 ≤ q.page → IsCurrent server (reload q s)
  reload-IsCurrent q s h = record { asked_now = refl; first_page = h; shows = λ e. absurd (cc e) }

  if-IsCurrent :
      (b : Bool) (s t : Pager)
      → (b ≡ true → IsCurrent server s)
      → (b ≡ false → IsCurrent server t)
      → IsCurrent server (if b then s else t)
  if-IsCurrent true s t c d = c refl
  if-IsCurrent false s t c d = d refl

  change-IsCurrent :
      (q : Query) (s : Pager) → 1 ≤ q.page → IsCurrent server s → IsCurrent server (change q s)
  change-IsCurrent q s h c =
      if-IsCurrent (query_eq q s.query) s (reload q s) (λ _. c) (λ _. reload-IsCurrent q s h)

  take_reply-IsCurrent :
      (r : Reply) (s : Pager)
      → r ≡ server s.newest s.query
      → IsCurrent server s
      → IsCurrent server (take_reply r s)
  take_reply-IsCurrent (listed p) s e c = record {
    asked_now = c.asked_now;
    first_page = c.first_page;
    shows = λ _. subst (λ r. Shows r (take_reply (listed p) s)) e (refl, refl, refl);
  }
  take_reply-IsCurrent (failed_with m) s e c = record {
    asked_now = c.asked_now;
    first_page = c.first_page;
    shows = λ _. subst (λ r. Shows r (take_reply (failed_with m) s)) e refl;
  }

  react-IsCurrent :
      (s : Pager) (e : Event) → IsCurrent server s → IsCurrent server (react server s e)
  unfolding react
  react-IsCurrent s (choose_status v) c = change-IsCurrent _ s (omega arith) c
  react-IsCurrent s (write_type v) c = change-IsCurrent _ s (omega arith) c
  react-IsCurrent s prev c =
      if-IsCurrent (leb s.query.page 1) s _ (λ _. c)
        λ later. change-IsCurrent _ s (ground (arith, later)) c
  react-IsCurrent s next c =
      if-IsCurrent (leb (total_pages s.total) s.query.page) s _ (λ _. c)
        λ more. change-IsCurrent _ s (omega arith) c
  react-IsCurrent s refreshed c = reload-IsCurrent s.query s c.first_page
  react-IsCurrent s (settled n) c =
      if-IsCurrent (n == s.newest) _ s
        (λ newest.
          take_reply-IsCurrent (server n s.asked) s
            (rw (c.asked_now, (==_iff n s.newest).0 newest) refl) c)
        (λ _. c)

  from :
      (s : Pager) (es : List Event) → IsCurrent server s → IsCurrent server (react_all server s es)
  unfolding react_all
  from s [] c = c
  from s (e ∷ es) c = from (react server s e) es (react-IsCurrent s e c)

-- Whatever is chosen and clicked, and in whatever order the answers come, a page before the first is
-- never asked for, and whenever nothing is loading, the table holds exactly what the server answered to
-- the newest request, which asked for the filter and the page that are shown, or its error is shown.
pub react_all-IsCurrent :
    (server : ℕ → Query → Reply) (events : List Event)
    → IsCurrent server (react_all server mounted events)
unfolding mounted
react_all-IsCurrent server events =
    from server mounted events
      (record { asked_now = refl; first_page = omega arith; shows = λ e. absurd (cc e) })
