-- ===== src/Menu/View/Pages.antt =====
-- The page that mizu_menu_query_view shows holds the cursor.
use embedded_library.Prelude.{
  ℕ, zero, suc, ◌+◌, ◌*◌, ◌/◌, ◌%◌, ◌≤◌, ◌<◌, ◌≡◌, refl, ◌⊎◌, Bool, true, false, Option, some, List,
  if◌then◌else◌, ◌==◌, arith,
}
use native.Mathlib.Nat.{div-add-mod', mod-lt, mul-div_left, lt_of_mul-lt-mul_right}
use embedded_library.Parameter.{Floats}
use embedded_library.Menu.{MenuState, MenuText, Menu, current_group}
use embedded_library.Menu.Navigation.{IsValid, in_state}
use embedded_library.Menu.View.{Component, View, page_count, common_view}
use embedded_library.Menu.View.Query.{query_view, query_state, query_list, list_view}

-- A number below T whole pages and t more stands on one of the first T + 1 pages, of T if t is 0.
pages_bound :
    (p r t T visible : ℕ)
    → p * visible + r < T * visible + t
    → t < visible
    → p < T + (if t == 0 then 0 else 1)
pages_bound p r zero T visible l b =
    let below : p < T = lt_of_mul-lt-mul_right visible (omega arith) in omega (arith, below)
pages_bound p r (suc t) T visible l b =
    let below : p < suc T = lt_of_mul-lt-mul_right visible (omega arith) in ground (arith, below)

list_page :
    (total cursor visible : ℕ)
    → 0 < visible
    → cursor < total
    → cursor / visible < page_count total visible
unfolding page_count
list_page total cursor visible v l =
    pages_bound (cursor / visible) (cursor % visible) (total % visible) (total / visible) visible
      (omega (arith, div-add-mod' cursor visible, div-add-mod' total visible)) (mod-lt total v)

-- The page that the view describes holds the cursor, and no more entries than are visible.
abbrev pub HoldsCursor : View → ℕ → ℕ → ℕ → Type 0
HoldsCursor view total cursor visible =
    (view.total_count ≡ total)
    × (view.page_index < view.page_count)
    × (view.page_index * visible ≤ cursor)
    × (cursor < view.page_index * visible + view.component_count)
    × (view.page_index * visible + view.component_count ≤ total)
    × (view.component_count ≤ visible)

module _ {fp : Floats} {W : Type 0} where
  -- What the state shows as a list: the number of its entries, and the one with the cursor.
  abbrev pub entry_count : Menu fp W → MenuState → ℕ
  entry_count m MenuState.root_state = m.config.root_item_count
  entry_count m _ = (current_group m).item_count

  abbrev pub cursor_of : Menu fp W → MenuState → ℕ
  cursor_of m MenuState.root_state = m.root_index
  cursor_of m _ = m.item_index

  list_view_holds :
      (m : Menu fp W) (title : MenuText) (total cursor visible : ℕ)
      → 0 < visible
      → cursor < total
      → HoldsCursor (list_view m title total cursor visible) total cursor visible
  unfolding list_view common_view
  list_view_holds m title total cursor visible v l =
      let start = mul-div_left (cursor / visible) v in
      let page = div-add-mod' cursor visible in
      let within = mod-lt cursor v in
      let numbered = list_page total cursor visible v l in
      (
        refl,
        omega (arith, start, numbered),
        rw start (omega (arith, page)),
        rw start (ground (arith, page, within)),
        rw start (ground (arith, page, within)),
        ground arith,
      )

  query_list_view :
      (m : Menu fp W) (at_root : Bool) (title : MenuText) (total cursor visible : ℕ)
      (components : Option (List (Component fp))) (component_capacity : ℕ) (w : W)
      → (query_list m at_root title total cursor visible components component_capacity w).1
        ≡ some (list_view m title total cursor visible)
  unfolding query_list
  query_list_view m at_root title total cursor visible components component_capacity w =
      ground arith

  shown :
      (m : Menu fp W) (s : MenuState) (visible : ℕ) (components : Option (List (Component fp)))
      (component_capacity : ℕ) (w : W)
      → IsValid m
      → m.state ≡ s
      → (s ≡ MenuState.root_state) ⊎ (s ≡ MenuState.group_state)
      → 0 < visible
      → (view : View) × ((query_state s m visible components component_capacity w).1 ≡ some view)
        × HoldsCursor view (entry_count m s) (cursor_of m s) visible
  unfolding query_state
  shown m MenuState.root_state visible components component_capacity w v e k p = (
    _,
    query_list_view m true m.config.root_title m.config.root_item_count m.root_index visible
        components component_capacity w,
    list_view_holds m m.config.root_title m.config.root_item_count m.root_index visible p v.on_root,
  )
  shown m MenuState.group_state visible components component_capacity w v e k p = (
    _,
    query_list_view m false (current_group m).title (current_group m).item_count m.item_index
        visible components component_capacity w,
    list_view_holds m (current_group m).title (current_group m).item_count m.item_index visible p
        (in_state v e).1,
  )
  shown m MenuState.parameter_edit_state visible components c w v e k p = ground arith
  shown m MenuState.step_edit_state visible components c w v e k p = ground arith
  shown m MenuState.command_confirm_state visible components c w v e k p = ground arith
  shown m MenuState.display_page_state visible components c w v e k p = ground arith

  -- On a valid menu that shows the root list or a group, for a page of any size but 0, a
  -- mizu_menu_query_view with a view object, whatever the array of components, writes a view with the
  -- number of all entries and a page below its number of pages; the page holds the cursor, ends within
  -- the list, and has no more entries than the size.
  pub query_view_shows :
      (m : Menu fp W) (visible : ℕ) (components : Option (List (Component fp)))
      (component_capacity : ℕ) (old : View) (w : W)
      → IsValid m
      → (m.state ≡ MenuState.root_state) ⊎ (m.state ≡ MenuState.group_state)
      → 0 < visible
      → (view : View) × ((query_view (some m) visible components component_capacity (some old) w).1
          ≡ some view)
        × HoldsCursor view (entry_count m m.state) (cursor_of m m.state) visible
  unfolding query_view
  query_view_shows m visible components component_capacity old w v k p =
      let (view, e, held) = shown m m.state visible components component_capacity w v refl k p in
      (view, ground (arith, v.live, e), held)
