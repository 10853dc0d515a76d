-- ===== src/Tests/Posts.antt =====
-- The handlers of GET /status, GET /messages and POST /message at concrete inputs.
use agentapi_plusplus.Conversation.Status.{is_screen_stable, status}
use agentapi_plusplus.RingBuffer.{capacity, get_all}
use agentapi_plusplus.Conversation.Messages.{last_has_role}
use agentapi_plusplus.Events.Types.{stable}
use agentapi_plusplus.Http.Messages.{
  done, Posts, pty, get_status, create_message, user, raw, command,
}
use agentapi_plusplus.Http.Messages.Posted.{IsPosted, create_message_lem}
use agentapi_plusplus.Msgfmt.Agents.{claude}
use agentapi_plusplus.Prelude.{◌≡◌, refl, true, [], ◌∷◌, some, codes}
use agentapi_plusplus.Tests.Conversations.{rested, rested-IsValid}

abbrev quiet : Posts
quiet = record { conversation = rested; written = [] }

create_message_lem_example :
    IsPosted quiet rested-IsValid (codes "why?") (create_message user (codes "why?") true quiet)
create_message_lem_example = create_message_lem quiet rested-IsValid (codes "why?") refl true

-- A command is answered as done, although nothing is sent to the agent.
command_run : create_message command (codes "/clear") true quiet ≡ some (done, quiet)
unfolding create_message
command_run = refl

-- A raw message goes to the agent past the conversation.
raw_run :
    create_message raw (codes "y") true quiet
    ≡ some (done, record quiet { written = codes "y" ∷ [] })
unfolding create_message
raw_run = refl

status_run :
    get_status claude pty quiet
    ≡ some (record { status = stable; agent_type = claude; transport = pty })
unfolding get_status status capacity get_all is_screen_stable last_has_role
status_run = refl
