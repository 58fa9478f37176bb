-- ===== src/Services/Sealed/Pins.antt =====
-- The methods of the store, but for the one that saves a pin, keep every pin.
use epic_kfc.Base.{ℤ, QString, true, Option, none, some, List, ◌≡◌, refl, ◌∙◌}
use epic_kfc.Models.{
  AuthSession, UserAddress, DeviceKeyMaterial, OneTimePreKey, LocalMessage, MessageDirection,
  success,
}
use epic_kfc.Host.{Host}
use epic_kfc.Store.{Store}
use epic_kfc.Store.Tables.{
  trust_pin, put_session, drop_session, put_device_keys, put_one_time_pre_keys,
}
use epic_kfc.Store.Messages.{
  put_message, mark_message_deleted_for, reconcile_visible_messages, mark_conversation_read,
}
use epic_kfc.Methods.{
  Machine, save_as, save_session, clear_session, save_device_keys, save_one_time_pre_keys,
  save_known_user, save_message, delete_message_for, delete_found, reconcile, read_conversation,
}
use epic_kfc.Trust.Pins.{save_as-Found, known_user-Found}
use epic_kfc.Services.Sealed.{KeepsPins}

module _ (host : Host) where
  -- a change of other tables than that of the pins, and the writing of the file
  same-KeepsPins :
      (s : Store) (m : Machine)
      → ((user : QString) (device : ℤ) → trust_pin user device s ≡ trust_pin user device m.store)
      → KeepsPins m (save_as host s m).0
  same-KeepsPins s m same user device pin h =
      save_as-Found host (λ b. success true) user device pin s m (same user device ∙ h)

  pub session-KeepsPins :
      (session : AuthSession) (m : Machine) → KeepsPins m (save_session host session m).0
  unfolding save_session trust_pin put_session
  session-KeepsPins session m = same-KeepsPins (put_session session m.store) m (λ u d. refl)

  pub clear-KeepsPins : (m : Machine) → KeepsPins m (clear_session host m).0
  unfolding clear_session trust_pin drop_session
  clear-KeepsPins m = same-KeepsPins (drop_session m.store) m (λ u d. refl)

  pub device-KeepsPins :
      (device : DeviceKeyMaterial) (m : Machine) → KeepsPins m (save_device_keys host device m).0
  unfolding save_device_keys trust_pin put_device_keys
  device-KeepsPins device m = same-KeepsPins (put_device_keys device m.store) m (λ u d. refl)

  pub pre_keys-KeepsPins :
      (keys : List OneTimePreKey) (m : Machine) → KeepsPins m (save_one_time_pre_keys host keys m).0
  unfolding save_one_time_pre_keys trust_pin put_one_time_pre_keys
  pre_keys-KeepsPins keys m = same-KeepsPins (put_one_time_pre_keys keys m.store) m (λ u d. refl)

  pub user-KeepsPins :
      (address : UserAddress) (m : Machine) → KeepsPins m (save_known_user host address m).0
  user-KeepsPins address m user device pin h =
      known_user-Found host (λ b. success true) user device pin address m h

  pub message-KeepsPins :
      (message : LocalMessage) (m : Machine) → KeepsPins m (save_message host message m).0
  unfolding save_message trust_pin put_message
  message-KeepsPins message m = same-KeepsPins (put_message message m.store) m (λ u d. refl)

  pub reconcile-KeepsPins :
      (now user : QString) (d : MessageDirection) (ids : List QString) (m : Machine)
      → KeepsPins m (reconcile host now user d ids m).0
  unfolding reconcile trust_pin reconcile_visible_messages
  reconcile-KeepsPins now user d ids m =
      same-KeepsPins (reconcile_visible_messages now user d ids m.store) m (λ u d. refl)

  pub read-KeepsPins :
      (now user peer : QString) (m : Machine)
      → KeepsPins m (read_conversation host now user peer m).0
  unfolding read_conversation trust_pin mark_conversation_read
  read-KeepsPins now user peer m =
      same-KeepsPins (mark_conversation_read now user peer m.store) m (λ u d. refl)

  pub delete-KeepsPins :
      (now user id : QString) (m : Machine) → KeepsPins m (delete_message_for host now user id m).0
  unfolding delete_message_for trust_pin mark_message_deleted_for
  delete-KeepsPins now user id m = found _
    where
      found : (o : Option LocalMessage) → KeepsPins m (delete_found host now user id o m).0
      found none = λ u d p h. h
      found (some x) = same-KeepsPins (mark_message_deleted_for now user id m.store) m (λ u d. refl)
