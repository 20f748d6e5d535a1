-- ===== src/Lib.antt =====
-- datastor_qos distributes the resource of a dispatcher (tokens) among applicants. An applicant keeps,
-- for each dispatcher, the quota that it was told and a queue of requests that wait for it; a request
-- group gathers requests to several dispatchers and is answered once. The dispatcher keeps global
-- pools of tokens and one record for each applicant, and shares the tokens out anew by the pressure
-- that the applicants report. Two messages connect the sides: `app2dispatch_t` (pressure, version,
-- tokens in use) and `dispatch2app_t` (quota, version).
--
-- Shared by both sides:
--   Base, Run: lists, words of 64 and 32 bits with their wrap-around, integers for versions, and
--     calls that may end the process by a failed assertion or a null pointer, or whose loop runs on.
--   Interface: sysqos_interface.h and sysqos_protocol.h, error numbers, resources, messages.
--   MemoryCache: memory_cache.c, the counters of `memory_cache_t`; each locked part is a step.
--   SafeRwList: safe_rw_list.c and sysqos_container_item.h, `rwfind`, `rwinsert`, `rwerase`, `rwclear`.
--   HashTable: hash_table.c, `hinsert`, `herase`, `hfind` over an array of such lists, with the map from
--     ids to values as its specification (HashTable/View), and a lookup by the items that the table
--     stores (HashTable/Finds).
-- The applicant's side:
--   BaseNode: sysqos_dispatch_base_node.c, `dispatch_base_node_t`: quota, version, tokens in use.
--   NodereqList: sysqos_nodereq_list.c, `nodereq_list_t`: the waiting requests and their pressure.
--   TokenReqgrp: sysqos_token_reqgrp.c, `to_got`, `to_failed`, `token_reqgrp_init`, `token_reqgrp_exit`. Groups
--     and requests are reached through pointers, so they live in a store from pointers to records.
--   DispatchNode: sysqos_dispatch_node.c, `dispatch_node_t`, which joins the three above.
--   ReqgrpManager: sysqos_token_reqgrp_manager.c, `token_reqgrp_manager_t`: the table of dispatchers, the
--     calls of the application (`get_token_grp`, `put_token_grp`, in ReqgrpManager/Calls) and the events
--     of a dispatcher (`node_online`, `node_offline`, `node_reset`, `rcvd`), over the store and the nodes.
--     The answers to the application are returned as a list. ReqgrpManager/Life: a manager in use together
--     with the groups that the application holds, and sequences of events and calls in any order.
-- The dispatcher's side:
--   AppNode: sysqos_app_node.c and sysqos_update_node.c, `app_node_t`.
--   TokenGlobal: sysqos_token_global.c, `token_global_t`: the pools.
--   TokenUpdate: sysqos_token_update.c, `token_update_ctx_t`: one round of sharing out.
--   WaitIncreaseList: sysqos_waitincrease_list.c. CountController: count_controller.c.
--   FenceExecutor: fence_executor.c.
--   DispManager: sysqos_dispatch_manager.c, the part of `sysqos_disp_manager_t` that announces quotas and
--     raises those that wait; the nodes live in a store from pointers to records. DispManager/Events:
--     the whole manager, with going online and offline, messages, and tokens by id.
--
-- State is passed explicitly: an operation takes the record of its component and returns the new one.
-- A call that holds its lock throughout is one step; where a call takes its lock twice, or counts by
-- atomic instructions, the parts are definitions of their own, and the call is their sequence.
-- The pressure of a message is read and written through the bit-field `fifo.depth`, which has the 16 bits
-- that `PRESS_VAL_BIT` of sysqos_policy_param.h comes to where `unsigned long` has 8 bytes.
-- Pointers that a caller hands over, ids included, are not null, so the asserts on them are left out.
-- `unsigned long` is a number below 2 ^ 64 and its sums and differences wrap; `int` counts wrap at 2 ^ 32.
-- Versions are integers without bounds, since their overflow is undefined in C.
--
-- Two loops run on fuel. That of `resource_increased` (`DispatchNode.serve`): each round but the last
-- removes a request, so the length of the queue is enough. And `try_clear_wait_increase`, which answers
-- none where the fuel is used up (`clear_waiting` aborts as out of fuel): one round more than there are
-- waiting nodes is enough where each of them lacks something, and no fuel is where the first lacks
-- nothing. All other loops follow a list.
--
-- Parameters: the comparison and the hash that the user installs, with what the interface documents
-- of them (an equivalence, an index in range, equal ids hash alike); the callbacks of `app_node_t` and of
-- `token_update_ctx_t`, as functions on a state of the caller; and whether malloc gave memory.
--
-- In the managers the functions run one after the other, while in the code another thread can come
-- between two parts that are locked. `DispManager.Events.rcvd` is given the message that stands in its
-- uninitialised variable, since the code does not copy the one that it received.
--
-- Not modelled: the functions that store callbacks, and `snd_msg_len`; `check_snd_msg`, which nothing
-- calls; the links of list_head.h, whose lists are sequences here; creation and destruction of locks; and
-- the test code, to which the tables of nodes at the end of sysqos_dispatch_base_node.c and
-- sysqos_nodereq_list.c belong.
pub mod Base
pub mod Interface
pub mod BaseNode
pub mod Run
pub mod AppNode
pub mod TokenGlobal
pub mod MemoryCache
pub mod SafeRwList
pub mod HashTable
pub mod TokenReqgrp
pub mod NodereqList
pub mod DispatchNode
pub mod TokenUpdate
pub mod CountController
pub mod FenceExecutor
pub mod WaitIncreaseList
pub mod DispManager
pub mod ReqgrpManager
