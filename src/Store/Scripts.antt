-- ===== src/Store/Scripts.antt =====
-- The statements on script handlers of internal/db/db.go. No migration creates their table, so that
-- what its columns default to and how its texts are ordered is a parameter, `HandlerTable`.
pub mod Upsert
use rivo.Prelude.{
  ℕ, suc, String, Bool, ◌&&◌, not, Option, none, some, List, [], ◌∷◌, ◌++◌, any, map, str_eq,
  if◌then◌else◌, select, find_first, sort_by,
}
use rivo.Base.{ok}
use rivo.Store.Rows.{Time, ScriptHandlerRow, Store}
use rivo.Store.Statement.{World, M, statement}

pub record HandlerTable : Type 0 where
  pub created_default : Time → Time
  pub updated_default : Time → Time
  -- The collation of the column `kind`.
  pub kind_before : String → String → Bool

abbrev pub is_kind : String → ScriptHandlerRow → Bool
is_kind kind r = str_eq r.kind kind

abbrev pub is_handler : (namespace kind : String) → ScriptHandlerRow → Bool
is_handler namespace kind r = str_eq r.namespace namespace && str_eq r.kind kind

-- `DO UPDATE SET`: the namespace of the row that is there stays.
abbrev pub overwrite : Time → ScriptHandlerRow → ScriptHandlerRow → ScriptHandlerRow
overwrite now h r = record r {
  handler_type = h.handler_type;
  code = h.code;
  config = h.config;
  version = suc r.version;
  enabled = h.enabled;
  updated_at = now;
}

abbrev pub is_enabled_in : (namespace : String) → ScriptHandlerRow → Bool
is_enabled_in namespace r = str_eq r.namespace namespace && r.enabled

module _ (d : HandlerTable) where
  abbrev pub inserted : Time → ScriptHandlerRow → ScriptHandlerRow
  inserted now h = record h {
    created_at = d.created_default now;
    updated_at = d.updated_default now;
  }

  -- `INSERT ... ON CONFLICT (kind) DO UPDATE`
  unfoldable pub upsert_handlers :
      Time → ScriptHandlerRow → List ScriptHandlerRow → List ScriptHandlerRow
  upsert_handlers now h rows =
      if any (is_kind h.kind) rows
      then map (λ r. if is_kind h.kind r then overwrite now h r else r) rows
      else (rows ++ inserted now h ∷ [])

  unfoldable pub upsert_script_handler : World → ScriptHandlerRow → M (Unit {0})
  unfolding statement upsert_handlers
  upsert_script_handler w h =
      statement w
        (λ now s. (ok tt, record s { script_handlers = upsert_handlers now h s.script_handlers }))

  unfoldable pub get_script_handlers : World → (namespace : String) → M (List ScriptHandlerRow)
  unfolding statement
  get_script_handlers w namespace = statement w (λ now s. (
    ok (
        sort_by (λ a b. d.kind_before a.kind b.kind)
          (select (is_enabled_in namespace) s.script_handlers)),
    s,
  ))

-- No row is no error.
unfoldable pub get_script_handler : World → (namespace kind : String) → M (Option ScriptHandlerRow)
unfolding statement
get_script_handler w namespace kind =
    statement w (λ now s. (ok (find_first (is_handler namespace kind) s.script_handlers), s))

unfoldable pub delete_script_handler : World → (namespace kind : String) → M (Unit {0})
unfolding statement
delete_script_handler w namespace kind = statement w (λ now s. (
  ok tt,
  record s { script_handlers = select (λ r. not (is_handler namespace kind r)) s.script_handlers },
))
