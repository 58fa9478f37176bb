-- ===== src/Services/Sync.antt =====
-- What a sync with the lists of the server leaves visible, whether or not the file is written.
use epic_kfc.Base.{
  QString, Bool, false, not, ◌&&◌, List, [], ◌∷◌, ◌++◌, ◌≡◌, ◌≢◌, refl, sym, ap, ◌∙◌, arith, All,
  map,
}
use mathlib.Core.Path.{subst}
use epic_kfc.Models.{LocalMessage, MessageDirection, sent, received, Result, success, failure}
use epic_kfc.Events.{Event}
use epic_kfc.Store.{Store}
use epic_kfc.Store.Messages.{
  is_message_visible_to_user, reconcile_message, reconcile_visible_messages, is_relevant, contains,
}
use epic_kfc.Store.Reconcile.{hide_hidden}
use epic_kfc.Methods.{Machine, reconcile, save_as}
use epic_kfc.Methods.Keys.{written-store}
use epic_kfc.Services.{
  Env, World, Step, Output, event, saving, after_saving, nothing, ◌then◌, store_of, current_user_id,
  user_id_of, set_machine,
}
use epic_kfc.Services.Lists.{save_messages, save_and_reconcile, listed, ids}

-- a message of a direction that the user still sees and that is not on the list
abbrev pub is_stale : QString → MessageDirection → List QString → LocalMessage → Bool
is_stale user d listed m =
    is_relevant user d m && is_message_visible_to_user m user && not (contains listed m.id)

reconcile_message_fresh :
    (now user : QString) (d : MessageDirection) (listed : List QString) (m : LocalMessage)
    → now ≢ []
    → is_stale user d listed (reconcile_message now user d listed m) ≡ false
unfolding reconcile_message
reconcile_message_fresh now user received listed m h =
    ground (arith, hide_hidden now user received m h)
reconcile_message_fresh now user sent listed m h = ground (arith, hide_hidden now user sent m h)

All_fresh :
    (now user : QString) (d : MessageDirection) (listed : List QString) (ms : List LocalMessage)
    → now ≢ []
    → All (λ m. is_stale user d listed m ≡ false) (map (reconcile_message now user d listed) ms)
All_fresh now user d listed [] h = tt
All_fresh now user d listed (m ∷ ms) h =
    (reconcile_message_fresh now user d listed m h, All_fresh now user d listed ms h)

saving-session :
    (method : Machine → Machine × Result Bool) (next : Step) (w : World)
    → ((v : World) → (next v).0.session ≡ v.session)
    → (saving method next w).0.session ≡ w.session
unfolding saving
saving-session method next w h = saved (method w.keys.machine)
  where
    saved : (r : Machine × Result Bool) → (after_saving r next w).0.session ≡ w.session
    saved (m, success ok) = h (set_machine m w)
    saved (m, failure e) = refl

saving-machine :
    (method : Machine → Machine × Result Bool) (w : World)
    → (saving method nothing w).0.keys.machine ≡ (method w.keys.machine).0
unfolding saving
saving-machine method w = saved (method w.keys.machine)
  where
    saved : (r : Machine × Result Bool) → (after_saving r nothing w).0.keys.machine ≡ r.0
    saved (m, success ok) = refl
    saved (m, failure e) = refl

module _ (env : Env) where
  save_messages-session :
      (ms : List LocalMessage) (w : World) → (save_messages env ms w).0.session ≡ w.session
  unfolding save_messages
  save_messages-session [] w = refl
  save_messages-session (m ∷ ms) w = saving-session _ _ w (save_messages-session ms)

  reconcile-store :
      (now user : QString) (d : MessageDirection) (listed : List QString) (m : Machine)
      → (reconcile env.host now user d listed m).0.store
        ≡ reconcile_visible_messages now user d listed m.store
  unfolding reconcile save_as
  reconcile-store now user d listed m = written-store env.host _ m _

  -- After a sync of one direction no message of that direction is left that the user sees and
  -- that the server did not list, whatever was stored before, and even where the file cannot be
  -- written; and the list is shown as it came. The clock's text is not empty.
  pub listed-fresh :
      (d : MessageDirection) (messages : List LocalMessage) (w : World)
      → env.host.print_time env.now ≢ []
      → All
          (λ m. is_stale (current_user_id w) d (ids messages) m ≡ false)
          (store_of (listed env d (success messages) w).0).messages
        × ((before : List Output) × ((listed env d (success messages) w).1
              ≡ before ++ event (Event.message_list_updated messages) ∷ []))
  unfolding listed save_and_reconcile ◌then◌ reconcile_visible_messages
  listed-fresh d messages w h = (
    subst
        (λ (ms : List LocalMessage).
          All (λ m. is_stale (current_user_id w) d (ids messages) m ≡ false) ms)
        (sym messages_after) (All_fresh now (current_user_id w) d (ids messages) _ h),
    (_, refl),
  )
    where
      now : QString
      now = env.host.print_time env.now

      synced : World
      synced = (save_messages env messages w).0

      messages_after :
          (store_of (listed env d (success messages) w).0).messages
          ≡ map
              (reconcile_message now (current_user_id w) d (ids messages))
              (store_of synced).messages
      messages_after =
          ap (λ (m : Machine). m.store.messages) (saving-machine _ synced)
          ∙ ap (λ (s : Store). s.messages)
              (reconcile-store now (current_user_id synced) d (ids messages) synced.keys.machine)
          ∙ ap
              (λ s.
                map (reconcile_message now (user_id_of s) d (ids messages))
                  (store_of synced).messages)
              (save_messages-session messages w)
