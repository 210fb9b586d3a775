-- ===== src/Endpoints.antt =====
-- apps/api/app/api/v1: the endpoints behind authentication. What the limiter answered is an argument.
-- The handlers that write commit as their last step.
pub mod Wallets
pub mod Quota
pub mod Reads
pub mod Alerts
pub mod Auth
pub mod Explain
pub mod Health
pub mod Agreement
pub mod Arranged
pub mod Pages
use crypto_intelligence_plat.Base.{Bool, List, count_where, drop, map, select, take}
use crypto_intelligence_plat.Deps.{Pagination, offset}
use crypto_intelligence_plat.Exec.{Exec, Result, err, ok}
use crypto_intelligence_plat.Models.{Db}
use crypto_intelligence_plat.Schemas.{Page}

-- `get_session` around a handler: what an exception leaves uncommitted is rolled back.
abbrev pub after_request : {A : Type 0} → Db → Result A → Db → Db
after_request before (ok _) after = after
after_request before (err _) after = before

abbrev pub request_session : {A : Type 0} → Exec Db A → Exec Db A
request_session m s = let (r, t) = m s in (r, after_request s r t)

-- `select(...).where(...)`, counted, and the page of it. `order` is how the database arranges the rows:
-- by time, newest first, but those of the same time as it likes, and in each request anew.
abbrev pub page_of :
    {A B : Type 0} → (A → Bool) → (List A → List A) → (A → B) → Pagination → List A → Page B
page_of wanted order show pg rows = record {
  items = map show (take pg.page_size (drop (offset pg) (order (select wanted rows))));
  meta = record { page = pg.page; page_size = pg.page_size; total = count_where wanted rows };
}
