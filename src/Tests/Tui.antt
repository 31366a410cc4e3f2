-- ===== src/Tests/Tui.antt =====
-- The state of the terminal client at concrete inputs.
use family_com.Prelude.{◌≡◌, [], ◌∷◌, some}
use family_com.Core.Ipc.{ServerMessage}
use family_com.Tui.App.{TuiApp, Action, new, handle_action}
use family_com.Tui.App.Editor.{showing, backspace, edit, handle_action-showing}
use family_com.Tui.App.Validity.{IsValid, new-IsValid, handle_action-IsValid}
use family_com.Tests.Samples.{alice}

handle_action-showing_example :
    handle_action (showing new "año" "!") Action.input_backspace
    ≡ some (showing new (edit backspace ("año", "!")).0 (edit backspace ("año", "!")).1)
handle_action-showing_example = handle_action-showing new "año" "!" backspace

handle_action-IsValid_example :
    (app' : TuiApp) × (handle_action new
        (Action.server_message (ServerMessage.peer_list (alice ∷ [])))
      ≡ some app')
    × IsValid app'
handle_action-IsValid_example =
    handle_action-IsValid new (Action.server_message (ServerMessage.peer_list (alice ∷ [])))
      new-IsValid
