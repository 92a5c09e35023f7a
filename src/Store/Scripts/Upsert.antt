-- ===== src/Store/Scripts/Upsert.antt =====
-- What a script handler is after UpsertScriptHandler of internal/db/db.go, for every namespace.
use rivo.Prelude.{
  suc, ◌≡◌, ◌∙◌, refl, sym, ap, String, true, false, Option, none, some, List, [], ◌∷◌, ◌++◌, any,
  map, arith, All, str_eq, eq_iff, if◌then◌else◌, find_first, Bool-cases, inl, inr,
}
use rivo.Base.{ok}
use rivo.Store.Rows.{Time, ScriptHandlerRow, Store}
use rivo.Store.Statement.{World}
use rivo.Store.Scripts.{
  HandlerTable, is_kind, is_handler, overwrite, inserted, upsert_handlers, upsert_script_handler,
  get_script_handler,
}

-- The conflict target makes `kind` a key of the table.
abbrev pub IsKeyed : List ScriptHandlerRow → Type 0
IsKeyed [] = Unit
IsKeyed (r ∷ rs) = All (λ (q : ScriptHandlerRow). str_eq q.kind r.kind ≡ false) rs × IsKeyed rs

-- The row, if it is of this namespace.
abbrev pub within : (namespace : String) → Option ScriptHandlerRow → Option ScriptHandlerRow
within namespace none = none
within namespace (some r) = if str_eq r.namespace namespace then some r else none

find_kind-none :
    (kind namespace : String) (r : ScriptHandlerRow) (rs : List ScriptHandlerRow)
    → str_eq r.kind kind ≡ true
    → All (λ (q : ScriptHandlerRow). str_eq q.kind r.kind ≡ false) rs
    → find_first (is_handler namespace kind) rs ≡ none
find_kind-none kind namespace r [] e h = refl
find_kind-none kind namespace r (q ∷ qs) e h = ground (
  arith,
  eq_iff r.kind kind,
  eq_iff q.kind kind,
  eq_iff q.kind r.kind,
  h.0,
  find_kind-none kind namespace r qs e h.1,
)

find_handler-within :
    (namespace kind : String) (rows : List ScriptHandlerRow)
    → IsKeyed rows
    → find_first (is_handler namespace kind) rows
      ≡ within namespace (find_first (is_kind kind) rows)
find_handler-within namespace kind [] h = refl
find_handler-within namespace kind (r ∷ rs) h = elim (Bool-cases (str_eq r.kind kind)) [
  | inl here ↦ ground (arith, find_kind-none kind namespace r rs here h.0)
  | inr there ↦ ground (arith, find_handler-within namespace kind rs h.1)
]

module _ (d : HandlerTable) (now : Time) (h : ScriptHandlerRow) where
  -- What the row of the kind is after an upsert, by what it was.
  abbrev pub upserted : Option ScriptHandlerRow → ScriptHandlerRow
  upserted none = record {
    kind = h.kind;
    namespace = h.namespace;
    handler_type = h.handler_type;
    code = h.code;
    config = h.config;
    version = h.version;
    enabled = h.enabled;
    created_at = d.created_default now;
    updated_at = d.updated_default now;
  }
  upserted (some r) = record {
    kind = r.kind;
    namespace = r.namespace;
    handler_type = h.handler_type;
    code = h.code;
    config = h.config;
    version = suc r.version;
    enabled = h.enabled;
    created_at = r.created_at;
    updated_at = now;
  }

  abbrev changed : (kind : String) → Option ScriptHandlerRow → Option ScriptHandlerRow
  changed kind none = none
  changed kind (some r) = some (if str_eq h.kind kind then overwrite now h r else r)

  find_kind-map :
      (kind : String) (rows : List ScriptHandlerRow)
      → find_first
          (is_kind kind)
          (map (λ q. if is_kind h.kind q then overwrite now h q else q) rows)
        ≡ changed kind (find_first (is_kind kind) rows)
  find_kind-map kind [] = refl
  find_kind-map kind (q ∷ qs) =
      ground
        (arith, eq_iff q.kind h.kind, eq_iff q.kind kind, eq_iff h.kind kind, find_kind-map kind qs)

  find_kind-append :
      (kind : String) (rows : List ScriptHandlerRow)
      → any (is_kind h.kind) rows ≡ false
      → find_first (is_kind kind) (rows ++ inserted d now h ∷ [])
        ≡ (if str_eq h.kind kind then some (inserted d now h) else find_first (is_kind kind) rows)
  find_kind-append kind [] absent = refl
  find_kind-append kind (q ∷ qs) absent = ground (
    arith,
    eq_iff q.kind h.kind,
    eq_iff q.kind kind,
    eq_iff h.kind kind,
    find_kind-append kind qs,
  )

  find_kind-found :
      (rows : List ScriptHandlerRow)
      → any (is_kind h.kind) rows ≡ true
      → (r : ScriptHandlerRow) × (find_first (is_kind h.kind) rows ≡ some r)
  find_kind-found [] e = cc
  find_kind-found (q ∷ qs) e = elim (Bool-cases (is_kind h.kind q)) [
    | inl here ↦ (q, rw here refl)
    | inr there ↦ rw there (find_kind-found qs (rw there at e))
  ]

  find_kind-absent :
      (rows : List ScriptHandlerRow)
      → any (is_kind h.kind) rows ≡ false
      → find_first (is_kind h.kind) rows ≡ none
  find_kind-absent [] e = refl
  find_kind-absent (q ∷ qs) e = ground (arith, find_kind-absent qs)

  same_kind :
      (kind : String) (rows : List ScriptHandlerRow)
      → str_eq h.kind kind ≡ true
      → find_first (is_kind kind) rows ≡ find_first (is_kind h.kind) rows
  same_kind kind rows e = ap (λ k. find_first (is_kind k) rows) (sym ((eq_iff h.kind kind).0 e))

  changed-other :
      (kind : String) (o : Option ScriptHandlerRow)
      → str_eq h.kind kind ≡ false
      → changed kind o ≡ o
  changed-other kind none e = refl
  changed-other kind (some r) e = rw e refl

  find_kind-upsert :
      (kind : String) (rows : List ScriptHandlerRow)
      → find_first (is_kind kind) (upsert_handlers d now h rows) ≡ (
          if str_eq h.kind kind
          then some (upserted (find_first (is_kind kind) rows))
          else find_first (is_kind kind) rows)
  unfolding upsert_handlers
  find_kind-upsert kind rows = elim (Bool-cases (any (is_kind h.kind) rows)) [
    | inl old ↦ rw old (
        find_kind-map kind rows ∙ elim (Bool-cases (str_eq h.kind kind)) [
          | inl e ↦
              let (r, found) = find_kind-found rows old in
              rw (same_kind kind rows e ∙ found) (rw e refl)
          | inr e ↦ rw e (changed-other kind (find_first (is_kind kind) rows) e)
        ])
    | inr new ↦ rw new (
        find_kind-append kind rows new ∙ elim (Bool-cases (str_eq h.kind kind)) [
          | inl e ↦ rw (same_kind kind rows e ∙ find_kind-absent rows new) (rw e refl)
          | inr e ↦ rw e refl
        ])
  ]

  map-apart :
      (r : ScriptHandlerRow) (rows : List ScriptHandlerRow)
      → All (λ (q : ScriptHandlerRow). str_eq q.kind r.kind ≡ false) rows
      → All
          (λ (q : ScriptHandlerRow). str_eq q.kind r.kind ≡ false)
          (map (λ q. if is_kind h.kind q then overwrite now h q else q) rows)
  map-apart r [] h = tt
  map-apart r (q ∷ qs) h = (ground arith, map-apart r qs h.1)

  map-IsKeyed :
      (rows : List ScriptHandlerRow)
      → IsKeyed rows
      → IsKeyed (map (λ q. if is_kind h.kind q then overwrite now h q else q) rows)
  map-IsKeyed [] keyed = tt
  map-IsKeyed (r ∷ rs) keyed = elim (Bool-cases (is_kind h.kind r)) [
    | inl e ↦ rw e (map-apart r rs keyed.0, map-IsKeyed rs keyed.1)
    | inr e ↦ rw e (map-apart r rs keyed.0, map-IsKeyed rs keyed.1)
  ]

  append-apart :
      (r : ScriptHandlerRow) (rows : List ScriptHandlerRow)
      → str_eq r.kind h.kind ≡ false
      → All (λ (q : ScriptHandlerRow). str_eq q.kind r.kind ≡ false) rows
      → All (λ (q : ScriptHandlerRow). str_eq q.kind r.kind ≡ false) (rows ++ inserted d now h ∷ [])
  append-apart r [] other apart = (ground (arith, eq_iff h.kind r.kind, eq_iff r.kind h.kind), tt)
  append-apart r (q ∷ qs) other apart = (apart.0, append-apart r qs other apart.1)

  append-IsKeyed :
      (rows : List ScriptHandlerRow)
      → any (is_kind h.kind) rows ≡ false
      → IsKeyed rows
      → IsKeyed (rows ++ inserted d now h ∷ [])
  append-IsKeyed [] new keyed = (tt, tt)
  append-IsKeyed (r ∷ rs) new keyed =
      (append-apart r rs (ground arith) keyed.0, append-IsKeyed rs (ground arith) keyed.1)

  upsert_handlers-IsKeyed :
      (rows : List ScriptHandlerRow) → IsKeyed rows → IsKeyed (upsert_handlers d now h rows)
  unfolding upsert_handlers
  upsert_handlers-IsKeyed rows keyed = elim (Bool-cases (any (is_kind h.kind) rows)) [
    | inl old ↦ rw old (map-IsKeyed rows keyed)
    | inr new ↦ rw new (append-IsKeyed rows new keyed)
  ]

-- On a table in which the kinds differ, if neither statement fails, GetScriptHandler after an
-- UpsertScriptHandler of `h` answers for a namespace and a kind: of another kind, what the table held
-- for it. Of the kind of `h`, if the table had no such row, `h` with the default times, and else that
-- row, overwritten, with a version one higher, but each only for the namespace of that row,
-- and nothing for another one, also where that is the namespace of `h`. The kinds differ still.
pub get_script_handler-upsert_script_handler :
    (d : HandlerTable) (w : World) (h : ScriptHandlerRow) (namespace kind : String) (s : Store)
    → w.fault s.event ≡ none
    → w.fault (suc s.event) ≡ none
    → IsKeyed s.script_handlers
    → let s' = (upsert_script_handler d w h s).1 in
      let before = find_first (is_kind kind) s.script_handlers in
      ((get_script_handler w namespace kind s').0
        ≡ ok (
            within namespace (
              if str_eq h.kind kind then some (upserted d (w.clock s.event) h before) else before)))
      × IsKeyed s'.script_handlers
unfolding upsert_script_handler get_script_handler
get_script_handler-upsert_script_handler d w h namespace kind s quiet quiet' keyed =
    let now = w.clock s.event in
    let keyed' = upsert_handlers-IsKeyed d now h s.script_handlers keyed in
    rw (quiet, quiet')
      (
        ap ok (
            find_handler-within namespace kind (upsert_handlers d now h s.script_handlers) keyed'
            ∙ ap (within namespace) (find_kind-upsert d now h kind s.script_handlers)),
        keyed',
      )
