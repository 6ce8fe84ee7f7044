-- ===== src/Tree/Pending/Fullscreen.antt =====
-- Fullscreen containers of sway/tree/container.c: container_set_fullscreen with the functions that it
-- calls, and container_handle_fullscreen_reparent. What they do to views, seats and the sizes of
-- floating containers is left out.
use swirl.Prelude.{
  ℕ, zero, suc, ◌==◌, Bool, false, Option, none, some, List, [], ◌∷◌, if◌then◌else◌,
}
use swirl.Tree.Types.{FullscreenMode, fullscreen_none, fullscreen_workspace, fullscreen_global}
use swirl.Tree.Links.{set_at}
use swirl.Tree.Pending.{
  Pending, is_none_mode, is_workspace_mode, is_global_mode, set_ws_fullscreen, fullscreen_of,
}

abbrev pub set_mode : ℕ → FullscreenMode → Pending → Pending
set_mode c m t = record t { fullscreen_mode = set_at t.fullscreen_mode c m }

-- `container_fullscreen_disable`; a container that is not fullscreen fails the assertion.
unfoldable pub container_fullscreen_disable : ℕ → Pending → Pending
container_fullscreen_disable c t =
    if is_none_mode (t.fullscreen_mode c)
    then t
    else set_mode c fullscreen_none (
        if is_workspace_mode (t.fullscreen_mode c)
        then set_ws_fullscreen (t.workspace c) none t
        else record t { global_container = none })

-- `container_fullscreen_workspace`
unfoldable pub container_fullscreen_workspace : ℕ → Pending → Pending
container_fullscreen_workspace c t =
    if is_none_mode (t.fullscreen_mode c)
    then set_ws_fullscreen (t.workspace c) (some c) (set_mode c fullscreen_workspace t)
    else t

-- `container_fullscreen_global`
unfoldable pub container_fullscreen_global : ℕ → Pending → Pending
container_fullscreen_global c t =
    if is_none_mode (t.fullscreen_mode c)
    then set_mode c fullscreen_global (record t { global_container = some c })
    else t

-- `if (pointer) container_fullscreen_disable(pointer);`
unfoldable pub disable_pointed : Option ℕ → Pending → Pending
unfolding container_fullscreen_disable
disable_pointed none t = t
disable_pointed (some c) t = container_fullscreen_disable c t

abbrev same_mode : FullscreenMode → FullscreenMode → Bool
same_mode fullscreen_none m = is_none_mode m
same_mode fullscreen_workspace m = is_workspace_mode m
same_mode fullscreen_global m = is_global_mode m

abbrev switch_mode : FullscreenMode → ℕ → Pending → Pending
switch_mode fullscreen_none c t = container_fullscreen_disable c t
switch_mode fullscreen_workspace c t =
    let t1 = disable_pointed t.global_container t in
    container_fullscreen_workspace c (disable_pointed (fullscreen_of (t1.workspace c) t1) t1)
switch_mode fullscreen_global c t =
    let t1 = disable_pointed t.global_container t in
    let t2 =
      if is_workspace_mode (t1.fullscreen_mode c) then container_fullscreen_disable c t1 else t1 in
    container_fullscreen_global c t2

-- `container_set_fullscreen`
unfoldable pub container_set_fullscreen : ℕ → FullscreenMode → Pending → Pending
unfolding container_fullscreen_disable container_fullscreen_workspace container_fullscreen_global
    disable_pointed
container_set_fullscreen c mode t =
    if same_mode (t.fullscreen_mode c) mode then t else switch_mode mode c t

-- `container_find_child`, over the children of a container.
unfoldable pub container_find_child : (ℕ → Bool) → (ℕ → List ℕ) → ℕ → List ℕ → Option ℕ
container_find_child test children zero cs = none
container_find_child test children (suc depth) [] = none
container_find_child test children (suc depth) (c ∷ cs) =
    let below = container_find_child test children depth (children c) in
    let rest = container_find_child test children (suc depth) cs in
    if test c then some c else elim below [ some found ↦ some found | none ↦ rest ]

-- The container itself, or one below it.
abbrev self_or_child : (ℕ → Bool) → ℕ → ℕ → Pending → Option ℕ
self_or_child test depth c t =
    if test c then some c else container_find_child test t.children depth (t.children c)

abbrev is_pointer : Option ℕ → ℕ → Bool
is_pointer none f = false
is_pointer (some g) f = g == f

abbrev reparent_global : ℕ → Pending → Pending
reparent_global f t =
    if is_pointer t.global_container f
    then t
    else record (disable_pointed t.global_container t) { global_container = some f }

abbrev reparent_in : Option ℕ → ℕ → Pending → Pending
reparent_in none f t = t
reparent_in (some w) f t =
    if is_pointer (t.ws_fullscreen w) f
    then t
    else set_ws_fullscreen (some w) (some f) (disable_pointed (t.ws_fullscreen w) t)

-- `container_handle_fullscreen_reparent`
unfoldable pub container_handle_fullscreen_reparent : ℕ → ℕ → Pending → Pending
unfolding disable_pointed container_find_child
container_handle_fullscreen_reparent depth c t =
    elim (self_or_child (λ x. is_global_mode (t.fullscreen_mode x)) depth c t) [
      | some f ↦ reparent_global f t
      | none ↦ elim (self_or_child (λ x. is_workspace_mode (t.fullscreen_mode x)) depth c t) [
        | none ↦ t
        | some f ↦ reparent_in (t.workspace f) f t
      ]
    ]
