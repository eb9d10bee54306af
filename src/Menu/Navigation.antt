-- ===== src/Menu/Navigation.antt =====
-- The navigation invariant of menu.c: what the cursors have to stand on in each state.
use embedded_library.Prelude.{
  is_null, elements, ℕ, ◌^◌, ◌<◌, ◌≡◌, refl, sym, ◌∙◌, subst, true, false, none, some, get_or, ℤ,
  pos, arith, if_elim,
}
use embedded_library.Status.{Status}
use embedded_library.Parameter.{Floats}
use embedded_library.Menu.{
  RootItem, EventKind, Event, MenuState, Menu, group_of, page_of, is_group, is_parameter,
  current_root, current_group, current_item,
}
use embedded_library.Menu.Index.{move_index, move_index_lem}
use embedded_library.Menu.Events.{handle_root, current_parameter}
use embedded_library.Menu.Events.Handlers.{handle_display_page}

-- The number of the entries that a root item leads to.
abbrev pub size_of : RootItem → ℕ
size_of (RootItem.group_root (some g)) = g.item_count
size_of (RootItem.group_root none) = 0
size_of (RootItem.page_root (some p)) = p.page_count
size_of (RootItem.page_root none) = 0

-- The size of a root that is not empty is that of its target.
pub group_size :
    (r : RootItem) → is_group r ≡ true → 0 < size_of r → size_of r ≡ (group_of r).item_count
group_size (RootItem.group_root (some g)) h p = refl
group_size (RootItem.group_root none) h p = absurd (omega arith)
group_size (RootItem.page_root p') h p = cc

page_size : (r : RootItem) → is_group r ≡ false → 0 < size_of r → size_of r ≡ (page_of r).page_count
page_size (RootItem.page_root (some g)) h p = refl
page_size (RootItem.page_root none) h p = absurd (omega arith)
page_size (RootItem.group_root p') h p = cc

module _ {fp : Floats} {W : Type 0} where
  abbrev pub root_at : Menu fp W → ℕ → RootItem
  root_at m i = get_or (elements m.config.root_items) i (RootItem.page_root none)

  -- The cursors stand on an item of the current group.
  abbrev pub IsOnItem : Menu fp W → Type 0
  IsOnItem m = (is_group (current_root m) ≡ true) × (m.item_index < (current_group m).item_count)

  -- The item is a parameter that the parameter service knows.
  abbrev pub IsOnParameter : Menu fp W → Type 0
  IsOnParameter m =
      IsOnItem m
      × (is_parameter (current_item m) ≡ true)
      × (is_null (current_parameter m).1 ≡ false)

  -- Where the state says that the user is: on the root list, on an item of the current group (on a
  -- registered parameter in the editors, on a command in the confirmation), or on a page.
  abbrev pub IsPlaced : Menu fp W → MenuState → Type 0
  IsPlaced m MenuState.root_state = Unit
  IsPlaced m MenuState.display_page_state =
      (is_group (current_root m) ≡ false)
      × (m.display_subpage_index < (page_of (current_root m)).page_count)
  IsPlaced m MenuState.group_state = IsOnItem m
  IsPlaced m MenuState.command_confirm_state = IsOnItem m × (is_parameter (current_item m) ≡ false)
  IsPlaced m MenuState.parameter_edit_state = IsOnParameter m
  IsPlaced m MenuState.step_edit_state = IsOnParameter m

  -- An initialised menu whose roots all lead to entries, with its cursors on entries that exist.
  pub record IsValid (m : Menu fp W) : Type 0 where
    pub live : m.initialized ≡ true
    pub short : m.config.root_item_count < 2 ^ 32
    pub sound :
        (i : ℕ)
        → i < m.config.root_item_count
        → (0 < size_of (root_at m i)) × (size_of (root_at m i) < 2 ^ 32)
    pub on_root : m.root_index < m.config.root_item_count
    pub placed : IsPlaced m m.state

  pub here :
      (m : Menu fp W)
      → IsValid m
      → (0 < size_of (current_root m)) × (size_of (current_root m) < 2 ^ 32)
  unfolding current_root
  here m v = v.sound m.root_index v.on_root

  -- A menu with the roots and the root cursor of a valid one is valid if its other cursors are.
  pub rebuild :
      (m m' : Menu fp W)
      → m'.initialized ≡ m.initialized
      → m'.config.root_items ≡ m.config.root_items
      → m'.config.root_item_count ≡ m.config.root_item_count
      → m'.root_index ≡ m.root_index
      → IsValid m
      → IsPlaced m' m'.state
      → IsValid m'
  rebuild m m' a b c d v p = record {
    live = a ∙ v.live;
    short = omega (arith, c, v.short);
    sound = λ i l.
        subst
          (λ rs.
            let root = get_or (elements rs) i (RootItem.page_root none) in
            (0 < size_of root) × (size_of root < 2 ^ 32))
          (sym b) (v.sound i (omega (arith, c)));
    on_root = omega (arith, c, d, v.on_root);
    placed = p;
  }

  -- Where a valid menu in a known state stands.
  pub in_state : {m : Menu fp W} {s : MenuState} → IsValid m → m.state ≡ s → IsPlaced m s
  in_state {m} v e = subst (IsPlaced m) e v.placed

  enter_root :
      (m : Menu fp W)
      → IsValid m
      → IsValid (handle_root m (record { kind = EventKind.activate; amount = pos 0 })).1
  unfolding handle_root current_root current_group
  enter_root m v =
      let (filled, _) = here m v in
      if_elim (λ (r : Status × Menu fp W). IsValid r.1) (is_group (current_root m))
        (λ g. record {
          live = v.live;
          short = v.short;
          sound = v.sound;
          on_root = v.on_root;
          placed = (g, subst (λ n. 0 < n) (group_size (current_root m) g filled) filled);
        })
        (λ g. record {
          live = v.live;
          short = v.short;
          sound = v.sound;
          on_root = v.on_root;
          placed = (g, subst (λ n. 0 < n) (page_size (current_root m) g filled) filled);
        })

  handle_root-kind :
      (m : Menu fp W) (kind : EventKind) (amount : ℤ)
      → IsValid m
      → m.state ≡ MenuState.root_state
      → IsValid (handle_root m (record { kind = kind; amount = amount })).1
  unfolding handle_root current_root
  handle_root-kind m EventKind.move_selection amount v s = record {
    live = v.live;
    short = v.short;
    sound = v.sound;
    on_root = (move_index_lem m.root_index m.config.root_item_count amount v.on_root v.short).0;
    placed =
        subst
          (λ st.
            IsPlaced
              (record m { root_index = move_index m.root_index m.config.root_item_count amount })
              st)
          (sym s) tt;
  }
  handle_root-kind m EventKind.activate amount v s = enter_root m v
  handle_root-kind m EventKind.move_page amount v s = v
  handle_root-kind m EventKind.back amount v s = v
  handle_root-kind m EventKind.adjust_value_event amount v s = v
  handle_root-kind m EventKind.open_step_editor amount v s = v
  handle_root-kind m EventKind.adjust_step amount v s = v

  -- On a valid menu in the root state, mizu_menu_handle_root leaves a valid menu, whatever the event: the
  -- cursor stays on a root item, and an activated root leads to the first entry of a target that has one.
  pub handle_root-IsValid :
      (m : Menu fp W) (event : Event)
      → IsValid m
      → m.state ≡ MenuState.root_state
      → IsValid (handle_root m event).1
  handle_root-IsValid m event v s = handle_root-kind m event.kind event.amount v s

  handle_display_page-kind :
      (m : Menu fp W) (kind : EventKind) (amount : ℤ)
      → IsValid m
      → m.state ≡ MenuState.display_page_state
      → IsValid (handle_display_page m (record { kind = kind; amount = amount })).1
  unfolding handle_display_page current_root
  handle_display_page-kind m EventKind.move_page amount v s =
      let (g, below) = in_state v s in
      let (filled, short) = here m v in
      let small = subst (λ n. n < 2 ^ 32) (page_size (current_root m) g filled) short in
      let count = (page_of (current_root m)).page_count in
      record {
        live = v.live;
        short = v.short;
        sound = v.sound;
        on_root = v.on_root;
        placed =
            subst
              (λ st.
                IsPlaced
                  (record m {
                    display_subpage_index = move_index m.display_subpage_index count amount;
                  })
                  st)
              (sym s) (g, (move_index_lem m.display_subpage_index count amount below small).0);
      }
  handle_display_page-kind m EventKind.back amount v s = record {
    live = v.live;
    short = v.short;
    sound = v.sound;
    on_root = v.on_root;
    placed = tt;
  }
  handle_display_page-kind m EventKind.move_selection amount v s = v
  handle_display_page-kind m EventKind.activate amount v s = v
  handle_display_page-kind m EventKind.adjust_value_event amount v s = v
  handle_display_page-kind m EventKind.open_step_editor amount v s = v
  handle_display_page-kind m EventKind.adjust_step amount v s = v

  -- On a valid menu that shows a page, mizu_menu_handle_display_page leaves a valid menu, whatever the
  -- event: the sub-page stays below the number of the page's sub-pages.
  pub handle_display_page-IsValid :
      (m : Menu fp W) (event : Event)
      → IsValid m
      → m.state ≡ MenuState.display_page_state
      → IsValid (handle_display_page m event).1
  handle_display_page-IsValid m event v s = handle_display_page-kind m event.kind event.amount v s
