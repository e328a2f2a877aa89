-- ===== src/Rpc/ToolsList.antt =====
-- The full-list branch of `_handle_tools_list` of gateway/routers/rpc.py, and the page that
-- `list_tools` of services/hybrid_search.py reads. `listed` is the catalog that the caller's scopes
-- match, sorted; a cursor is the number that it reads as, `none` for one that is missing or is none.
pub mod Walk
use m_gate.Prelude.{
  Bool, List, Option, Result, String, clamp, drop, err, false, if◌then◌else◌, length, ltb, max, min,
  nat_beq, negsuc, none, nonzero_or, not, ok, pos, some, suc, take, ℕ, ℤ, ◌&&◌, ◌+◌,
}
use m_gate.Catalog.{CatalogTool}
use m_gate.Rpc.{Raised, exception}
use m_gate.Settings.{Settings}
use m_gate.Tenant.Store.{ControlPlane}
use m_gate.Tenant.ToolPolicy.{filter_available_tools}

pub record ListParams : Type 0 where
  pub limit : Option ℤ
  pub cursor : Option ℤ
  pub client_catalog_version : Option ℤ

pub record ToolsPage : Type 0 where
  pub tools : List CatalogTool
  pub next_cursor : Option ℕ
  pub catalog_version : ℤ
  pub list_changed : Bool

-- `list_params.limit or settings.route_top_k`
abbrev pub asked_limit : Settings → Option ℤ → ℤ
asked_limit settings none = settings.route_top_k
asked_limit settings (some n) = nonzero_or n settings.route_top_k

-- The database refuses a `$limit` that is not positive.
abbrev cap_limit : ℤ → ℕ → Result Raised ℕ
cap_limit (pos cap) n = ok (min n cap)
cap_limit (negsuc cap) n = err (exception "the limit must be positive")

unfoldable pub page_limit : Settings → Option ℤ → Result Raised ℕ
page_limit settings limit =
    cap_limit settings.catalog_list_limit (max 1 (clamp (asked_limit settings limit)))

-- `_decode_cursor`
abbrev pub decode_cursor : Option ℤ → ℕ
decode_cursor none = 0
decode_cursor (some n) = clamp n

-- One more than the limit is read, to know whether there is a next page.
unfoldable pub raw_page : ℕ → ℕ → List CatalogTool → List CatalogTool × Option ℕ
raw_page limit offset listed =
    let items = take (suc limit) (drop offset listed) in
    if ltb limit (length items) then (take limit items, some (offset + limit)) else (items, none)

abbrev pub version_of : Option ℤ → ℤ
version_of none = pos 0
version_of (some n) = n

abbrev pub same_version : ℤ → ℤ → Bool
same_version (pos m) (pos n) = nat_beq m n
same_version (negsuc m) (negsuc n) = nat_beq m n
same_version _ _ = false

-- The curation hides tools of the page after the page was cut.
unfoldable pub handle_tools_list :
    Settings
    → ControlPlane
    → String
    → List CatalogTool
    → ListParams
    → ℤ
    → ℕ
    → Result Raised ToolsPage × ControlPlane
unfolding page_limit raw_page filter_available_tools
handle_tools_list settings plane tenant listed params catalog_version now =
    elim (page_limit settings params.limit) [
      | err e ↦ (err e, plane)
      | ok limit ↦
          let (items, next) = raw_page limit (decode_cursor params.cursor) listed in
          let (shown, plane') = filter_available_tools settings plane tenant items now in
          let client = version_of params.client_catalog_version in
          (
            ok (record {
              tools = shown;
              next_cursor = next;
              catalog_version = catalog_version;
              list_changed =
                  not (same_version client (pos 0)) && not (same_version client catalog_version);
            }),
            plane',
          )
    ]
