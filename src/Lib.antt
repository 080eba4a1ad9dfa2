-- ===== src/Lib.antt =====
-- TeamFlow: coding agents work on task cards of a shared board, by the rules of a workflow
-- definition. An agent calls a tool; the tool runtime lets the call through, the tool decides what the
-- workflow allows, checks what git shows of the delivery, and writes the card.
--
-- Parts, and where they are modelled (paths from the repository's root):
--
--   Runtime    core/tool_runtime.py, `ToolRuntime`. State: its grants, kept results and closed turns.
--              Authorize is `authorize`, Invoke is `invoke`, Admit the checks that `invoke` makes before
--              and after it takes its lock, Execute the call of the tool and what follows it. Steps has
--              any sequence of grants and calls, as a relation.
--   Tools      core/teamflow_tools.py. Actions has `create_task` to `cancel_task`, Execute the common
--              `_execute_existing_action`, Visible the wait `_visible_write`, Listing
--              `list_tasks`, Lookup `get_task`. World is what they call.
--   Workflow   core/workflow*.py. Definition and Value are the data, Contract (workflow_contract.py) says
--              who may do what, Rules and Matching (workflow_rule_validation.py) check a rule and make
--              its patch, Lifecycle (workflow_lifecycle.py) decides on an action, Responses
--              (workflow_responses.py) are its answers, RuntimeAction (workflow_runtime.py)
--              decides on stopping an execution, RuleCheck and Graph (workflow_validation.py)
--              check a definition.
--   Delivery   core/delivery.py and core/git_facts.py. Git has the facts that git commands give, Mode the
--              delivery modes, Input what an agent may say of a delivery, Resources the declared branches
--              and worktrees, Gate the completion gate, Apply what an action records of a delivery.
--   Queue      the queue of deliveries of a card's events to agents' sessions, as tables of rows (Tables).
--              Dispatch is core/task_routing.py, Plan core/task_delivery_planner.py, Execution
--              core/task_delivery_execution.py, and the others are core/task_delivery_store.py: Claim is
--              `claim_task_deliveries`, Recover `recover_retryable_failed_task_deliveries`, Finish how a
--              delivery ends, Waiting how it waits, Turns the turns of its session, Queries what only
--              reads. Calls has any sequence of the store's calls, Machine the edges of a status,
--              Exclusive the sessions that are busy.
--   Prelude    texts, lists and dictionaries as Python has them, SQL's statements
--              on rows; Examples has runs of all of it.
--
-- State is passed on explicitly: a function that reads or writes the board, or asks git or the clock,
-- takes the state of the world and returns it. The world is a record of functions, a parameter (World
-- for the tools, Host for the runtime), and so are git (its exit code and output), pathlib, JSON and
-- the hash of arguments. A ValueError or KeyError is a constructor or `none`.
--
-- Bounds and fuel. The graph search takes as much fuel as it has roots and states, since each round
-- visits a new state. The wait for a write takes 13, since its delays pass ten seconds in twelve
-- rounds. Reading the board page by page takes one more than it has cards. All other recursion is
-- structural. Times are milliseconds, where the source has seconds as floats, but seconds in the
-- queue, where the source has timestamps as texts.
--
-- An `UPDATE` is a function on the rows that its condition selects, a transaction that raises changes
-- nothing, and every `now()` is an argument.
--
-- Assumed of the data: a JSON column holds an object; a definition is already loaded and its JSON
-- shape checked; a field's value is None, a text, a list of texts or a flat object; a rule's `to` is absent or a text; a delivery that is
-- no object is not an empty one.
--
-- Left out: the prose of messages, with what only it reads; display labels and colours; invocation
-- ids where they only mark a write for the board; locks, of which only the order that they force
-- matters, and with them that stop_task_execution, which has a lock of its own, can overlap a call
-- that changes a card; prompts, and the prose columns of the tables; `list_available_tasks`; the daemon,
-- the clients of the board and of Codex, hooks and user interface, which are input and output.
mod Prelude
pub mod Workflow
pub mod Delivery
pub mod Tools
pub mod Runtime
pub mod Queue
pub mod Examples
