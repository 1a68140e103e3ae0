-- ===== src/Web.antt =====
-- The HTTP handlers of gobackendkit/examples/quickstart/main.go: what each answers, over what the
-- database and Redis answer. The requests, the time limits and the writing of JSON are left out.
use go_project.Base.{
  ℕ, ◌≡◌, refl, List, [], ◌∷◌, ◌++◌, Option, none, some, Bool, true, false, length, append_assoc,
  append-nil,
}
use mathlib.Core.Path.{subst}
use go_project.Db.{Db}
use go_project.Db.Calls.{Answer, refused, answered, statement}
use go_project.Text.{codes, Casing}

-- What a row of demo_items holds.
pub record Item : Type 0 where
  pub id : ℕ
  pub title : List ℕ
  pub qty : ℕ

-- The values of the maps that writeJSON writes.
pub data Json : Type 0 where
  flag : Bool → Json
  text : List ℕ → Json
  number : ℕ → Json
  items : List Item → Json

-- The status and the body of writeJSON.
pub record Response : Type 0 where
  pub status : ℕ
  pub body : List (List ℕ × Json)

abbrev pub reply : Bool → List (List ℕ × Json) → List (List ℕ × Json)
reply value fields = (codes "ok", flag value) ∷ fields

-- /health, at the time of which it is given the text.
abbrev pub health : List ℕ → Response
health now = record {
  status = 200;
  body =
      reply true ((codes "message", text (codes "quickstart 运行中")) ∷ (codes "time", text now) ∷ []);
}

-- The answer 503 of the two pings.
abbrev unavailable : List ℕ → List ℕ → Response
unavailable what error = record {
  status = 503;
  body = reply false ((what, text (codes "fail")) ∷ (codes "error", text error) ∷ []);
}

-- An error is its text.
abbrev pub Call : Type 0 → Type 0
Call X = Answer (List ℕ) X

-- /ping/db: `ping` is what Ping gives, `none` for nil, and `scan` what QueryRow and Scan give for a
-- statement that reaches the driver.
unfoldable pub ping_db :
    {C : Type 0} → Casing → Db C → Option (List ℕ) → (List ℕ → Call ℕ) → Response
ping_db cs conn (some error) scan = unavailable (codes "db") error
ping_db cs conn none scan = elim (scan (statement cs conn (codes "SELECT 1"))) [
  | refused error ↦ unavailable (codes "db") error
  | answered one ↦ record {
    status = 200;
    body = reply true ((codes "db", text (codes "ok")) ∷ (codes "select", number one) ∷ []);
  }
]

-- /ping/redis: what StringSet gives, and what StringGet does.
unfoldable pub ping_redis : Option (List ℕ) → Call (List ℕ) → Response
ping_redis (some error) got = unavailable (codes "redis") error
ping_redis none (refused error) = unavailable (codes "redis") error
ping_redis none (answered val) = record {
  status = 200;
  body = reply true ((codes "redis", text (codes "ok")) ∷ (codes "value", text val) ∷ []);
}

abbrev pub items_query : List ℕ
items_query =
    codes "\n\t\t\tSELECT id, title, qty FROM demo_items WHERE is_delete = 0 ORDER BY id ASC"

-- The rows of a query: what Scan gives for each, an item or an error, and what rows.Err gives once
-- Next has ended them, `none` for nil.
pub record Cursor : Type 0 where
  pub scans : List (Call Item)
  pub rows_err : Option (List ℕ)

-- The loop over the rows. Why Next ended them is not asked.
abbrev pub list_items : List (Call Item) → List Item → Response
list_items [] list = record {
  status = 200;
  body = reply true ((codes "data", items list) ∷ (codes "count", number (length list)) ∷ []);
}
list_items (refused error ∷ rows) list = record {
  status = 500;
  body = reply false ((codes "error", text error) ∷ []);
}
list_items (answered item ∷ rows) list = list_items rows (list ++ (item ∷ []))

-- /demo/items: `query` gives the rows of a statement that reaches the driver.
unfoldable pub demo_items : {C : Type 0} → Casing → Db C → (List ℕ → Call Cursor) → Response
demo_items cs conn query = elim (query (statement cs conn items_query)) [
  | refused error ↦ record {
    status = 400;
    body = reply false (
        (codes "message", text (codes "查询失败（请先用 excelddl 建表 demo_items）"))
        ∷ (codes "error", text error)
        ∷ []);
  }
  | answered rows ↦ list_items rows.scans []
]

-- Rows that Scan reads, and those from the first on that it does not, with its error.
abbrev pub rows_of : List Item → Option (List ℕ × List (Call Item)) → List (Call Item)
rows_of [] none = []
rows_of [] (some (error, rest)) = refused error ∷ rest
rows_of (item ∷ list) broken = answered item ∷ rows_of list broken

abbrev pub items_response : List Item → Option (List ℕ × List (Call Item)) → Response
items_response list none = record {
  status = 200;
  body = reply true ((codes "data", items list) ∷ (codes "count", number (length list)) ∷ []);
}
items_response list (some (error, rest)) = record {
  status = 500;
  body = reply false ((codes "error", text error) ∷ []);
}

list_items-rows_of :
    (list found : List Item) (broken : Option (List ℕ × List (Call Item)))
    → list_items (rows_of list broken) found ≡ items_response (found ++ list) broken
list_items-rows_of [] found none = rw (append-nil found) refl
list_items-rows_of [] found (some (error, rest)) = refl
list_items-rows_of (item ∷ list) found broken =
    subst
      (λ (all : List Item).
        list_items (rows_of list broken) (found ++ (item ∷ [])) ≡ items_response all broken)
      (append_assoc found (item ∷ []) list) (list_items-rows_of list (found ++ (item ∷ [])) broken)

-- What a database may answer: an error of the query; or rows, of which some are read, up to the
-- first that is not, if there is one, or else to the end of Next, whatever ended it.
pub data Outcome : Type 0 where
  no_query : List ℕ → Outcome
  rows_came : List Item → Option (List ℕ × List (Call Item)) → Option (List ℕ) → Outcome

abbrev pub answer_of : Outcome → Call Cursor
answer_of (no_query error) = refused error
answer_of (rows_came list broken rows_err) =
    answered (record { scans = rows_of list broken; rows_err = rows_err })

abbrev pub response_of : Outcome → Response
response_of (no_query error) = record {
  status = 400;
  body = reply false (
      (codes "message", text (codes "查询失败（请先用 excelddl 建表 demo_items）"))
      ∷ (codes "error", text error)
      ∷ []);
}
response_of (rows_came list broken rows_err) = items_response list broken

-- /demo/items: where the query fails, the status is 400, with the error; where a row cannot be read
-- it is 500, with the error of the first such row and no item; and otherwise it is 200, with the
-- items of the rows that came before Next ended, in order, and their number, also where it was an
-- error that ended Next.
pub demo_items-response_of :
    {C : Type 0} (cs : Casing) (conn : Db C) (query : List ℕ → Call Cursor) (outcome : Outcome)
    → query (statement cs conn items_query) ≡ answer_of outcome
    → demo_items cs conn query ≡ response_of outcome
unfolding demo_items
demo_items-response_of cs conn query (no_query error) h = rw (h, demo_items) refl
demo_items-response_of cs conn query (rows_came list broken rows_err) h =
    rw (h, demo_items) (list_items-rows_of list [] broken)
