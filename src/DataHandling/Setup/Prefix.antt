-- ===== src/DataHandling/Setup/Prefix.antt =====
-- Which names put the model into callback mode.
use datahandlinglibs.Base.{ℕ, ◌≡◌, refl, Bool, true, false, none, [], ◌∷◌}
use datahandlinglibs.DataHandling.Setup.{
  Name, delim, cb_prefix, words, Setup, init_raw, receive_raw,
}

-- The first word of a name that begins with a word and an underscore is this word.
words-delim : (name : Name) → words [] (99 ∷ 98 ∷ delim ∷ name) ≡ cb_prefix ∷ words [] name
unfolding words
words-delim name = refl

module _ (receiver : Name → Bool) where
  -- An input of data whose name begins with "cb_" puts the model into callback mode, and no receiver
  -- is asked for.
  init_raw-cb :
      (name : Name) (timeout : ℕ) (s : Setup)
      → init_raw receiver receiver
          (record {
            is_data_request = false;
            uid = 99 ∷ 98 ∷ delim ∷ name;
            recv_timeout_ms = timeout;
          })
          s
        ≡ (
          record s {
            raw_data_receiver_connection_name = 99 ∷ 98 ∷ delim ∷ name;
            callback_mode = true;
          },
          none,
        )
  unfolding init_raw receive_raw words
  init_raw-cb name timeout s = refl
