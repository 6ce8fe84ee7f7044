-- ===== src/Lib.antt =====
-- Verification library of swirl, a tiling Wayland compositor in C.
--
-- The compositor keeps a tree of nodes (root, outputs, workspaces, containers and views). Commands,
-- input and clients change the pending state of nodes and mark them dirty. The transactions of
-- sway/desktop/transaction.c copy the pending states, ask the clients for new buffers, and make the
-- copies current once all clients have answered or a timer has expired. Keys reach the commands
-- through the shortcut model of sway/input/keyboard.c and the bindings of sway/commands/bind.c.
-- All parts keep their sequences in the arrays of common/list.c.
--
-- Which file models which part:
--
--   Prelude: names of the standard libraries passed on, Boolean tests on native numbers, lists
--     measured by native numbers, moves of cells in a buffer (`memmove`), signed integers, and C
--     strings as lists of bytes (`strcmp`, `strtok`'s classes of characters). Prelude.Members: lists of
--     pointers, with list_find, list_insert and list_del of common/list.c as pure functions.
--   Tree.Types: the enumerations and states of include/sway/tree/ and include/sway/output.h. A
--     pointer to a node is its number, and the memory is a function from numbers to nodes.
--   Tree.Ancestors: node_get_parent and node_has_ancestor of sway/tree/node.c.
--   Tree.Links: `pending.parent`, `pending.workspace` and the lists of containers, and what
--     container_detach, container_get_siblings, container_has_ancestor and the functions that attach
--     containers in sway/tree/container.c do to them. Tree.Pending: the same functions whole, with
--     the fullscreen pointers, the scratchpad, the pools of minimized windows and the dirty marks:
--     Tree.Pending.Fullscreen has container_set_fullscreen and
--     container_handle_fullscreen_reparent, Tree.Pending.Reparent what attaches containers
--     (sway/tree/container.c, sway/tree/workspace.c) and who owns a minimized window
--     (sway/tree/root.c), Tree.Pending.Destroy the end of containers and workspaces and
--     workspace_minimized_hide, Tree.Pending.Scratchpad root_scratchpad_show, root_scratchpad_hide and
--     container_raise_floating, Tree.Pending.Swap workspace_swap_columns and
--     workspace_swap_floating, Tree.Pending.Floating container_set_floating and
--     root_scratchpad_add_container, Tree.Pending.Wrap workspace_wrap_children and workspace_split,
--     and Tree.Pending.History sequences of all these operations.
--   Tree.Workspaces: the comparison of workspaces and output_sort_workspaces of sway/tree/output.c,
--     and workspace_next of sway/tree/workspace.c, with the numbers in the names as parameters;
--     Tree.Workspaces.Prev: workspace_prev; Tree.Workspaces.Cycle: workspace_output_next and
--     workspace_output_prev.
--   Txn: sway/desktop/transaction.c. Txn.State has the data (`struct sway_transaction`, `struct
--     sway_transaction_instruction`, the server's queued and pending transaction, the dirty list),
--     Txn.Add transaction_create, the three copy functions and transaction_add_node, Txn.Apply
--     transaction_apply and transaction_destroy, Txn.Commit transaction_commit,
--     transaction_commit_pending, transaction_progress and _transaction_commit_dirty, and Txn.Events
--     what comes from outside: set_instruction_ready, the two notify functions, handle_timeout, and
--     the begin_destroy functions. A history is a list of events. What the rest of the compositor
--     answers during a call (focus, visibility, serials, failing allocations, the debugging switches)
--     is the record `Env`, and each event brings its own.
--   Common.ArrayList: common/list.c, a buffer with its capacity and the number of cells in use. New
--     cells hold an arbitrary value, as after `realloc`.
--     Common.ArrayList.Sort: list_stable_sort on the cells.
--   Common.Util: wrap of common/util.c.
--   Common.Split: split_string of common/stringop.c.
--   Common.Gesture: gestures of common/gesture.c, their parser, printer and comparisons, and
--     in Common.Gesture.Tracker the tracker.
--   Input.Shortcut: state_erase_key, state_add_key and update_shortcut_state of
--     sway/input/keyboard.c, with the loops on the two arrays.
--   Input.Binding: get_active_binding of sway/input/keyboard.c, and binding_key_compare,
--     binding_upsert and binding_remove of sway/commands/bind.c.
--   Input.Focus: the focus stack of sway/input/seat.c, as a list of nodes: seat_node_from_node,
--     handle_new_node, seat_set_raw_focus, seat_node_destroy and the searches for a node, on the tree
--     of Tree.Ancestors and with the dirty nodes of Txn.State.
--   Ipc: the server of sway/ipc-server.c and the client of common/ipc-client.c. Ipc.Message has the
--     header and the bytes of a message, Ipc.Client `struct ipc_client` with ipc_send_reply and
--     ipc_client_handle_writable, Ipc.Commands ipc_client_handle_command, Ipc.Session
--     ipc_client_handle_readable and histories of one connection, Ipc.Events ipc_send_event for the
--     list of all clients, and Ipc.Response ipc_recv_response. What JSON texts say is a parameter, and
--     so is what commands other than a subscription or a tick do: a function from the state of the
--     compositor to the next state and what the client is sent; the state may hold all that happens
--     to the compositor until its next command. In a history no event is sent to the client between
--     two calls of the event loop, and no allocation fails; one whose size wraps to too few bytes is
--     an overrun. The number of bytes that FIONREAD stores is read as an `int`.
--
-- Txn.Tests, Common.Tests, Ipc.Tests, Tree.Tests, Tree.SwapTests, Tree.FloatingTests,
-- Tree.WorkspaceTests, Input.Tests and Input.FocusTests run the models on concrete data.
--
-- Numbers: `size_t` counters wrap at 2 ^ 64 where the code counts up or down; identifiers, key ids
-- and masks are natural numbers; `double` is a parameter with the operations that the code uses. The
-- loops are recursions on their lists or on the number of rounds left. transaction_progress and
-- transaction_commit_pending call one another: a number of rounds bounds them. copy_workspace_state
-- climbs the parents for as many steps as `Env` says that the tree is deep, and so does
-- node_has_ancestor. The functions of the pending tree that follow parents or children take the
-- height of the tree as `depth`; the theorems ask that the tree below the container is no higher.
-- The size of a client's buffer doubles in as many rounds as bytes are needed, and one more, though
-- fewer are enough; a loop of `recv` for n bytes has n rounds, since each call but the last brings a byte.
--
-- Not modelled: scene graph, animations and rendering, wlroots and the Wayland protocols, the
-- processes besides the compositor (bar, message tool, nagging dialog), and, so far, sizes,
-- positions and titles in the tree, the other parts of seats, the configuration and the JSON of the
-- IPC.
pub mod Common
pub mod Input
pub mod Ipc
pub mod Prelude
pub mod Tree
pub mod Txn
