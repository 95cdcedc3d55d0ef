-- ===== src/PosixTable/Layout.antt =====
-- The four writes of `set` fill one record and do not disturb one another.
use rest_technosphere_cpp_se.Base.{
  ℕ, ◌+◌, ◌<◌, ◌≡◌, ◌^◌, ◌≢◌, refl, ◌∙◌, inl, inr, Bytes, text_eq, length, arith,
}
use rest_technosphere_cpp_se.Memory.{Mem, write, strcpy, strcmp, c_string, store_int, load_int}
use rest_technosphere_cpp_se.Memory.Laws.{
  write_self, write_ne, strcpy_below, strcpy_above, strcpy_end, strcmp-strcpy, strcmp_frame,
  c_string-strcpy, c_string_frame, store_int_ne, load_int-store_int, load_int_frame,
}
use rest_technosphere_cpp_se.Records.{key_size, filled, key_at, status_at, IsKey, Fits, room}
use rest_technosphere_cpp_se.Records.Frame.{AgreeOutside}
use rest_technosphere_cpp_se.Records.Store.{IsStored}
use rest_technosphere_cpp_se.PosixTable.{
  value_size, table_size, death_offset, value_offset, put_record,
}

module _ (m : Mem) (i : ℕ) (key value : Bytes) (death : ℕ) (inside : i < table_size) (k : IsKey key)
    (v : Fits value_size value) where
  with_key : Mem
  with_key = strcpy m (key_at i) key

  with_death : Mem
  unfolding with_key
  with_death = store_int with_key (key_at i + death_offset) death

  with_value : Mem
  unfolding with_death
  with_value = strcpy with_death (key_at i + value_offset) value

  result : Mem
  unfolding put_record
  result = put_record m i key value death

  result_lem : (a : ℕ) → result a ≡ write with_value (status_at i) filled a
  unfolding result with_value
  result_lem a = refl

  -- the last write, of the status byte, touches nothing else
  result_ne : (a : ℕ) → a ≢ status_at i → result a ≡ with_value a
  result_ne a d = result_lem a ∙ write_ne with_value (status_at i) filled a d

  result_outside : AgreeOutside i m result
  unfolding with_value
  result_outside a (inl h) =
      result_ne a (omega arith)
      ∙ strcpy_below with_death (key_at i + value_offset) value a (omega arith)
      ∙ store_int_ne with_key (key_at i + death_offset) death a (inl (omega arith))
      ∙ strcpy_below m (key_at i) key a (omega arith)
  result_outside a (inr h) =
      result_ne a (omega arith)
      ∙ strcpy_above with_death (key_at i + value_offset) value a (omega (arith, v.fits))
      ∙ store_int_ne with_key (key_at i + death_offset) death a (inr (omega arith))
      ∙ strcpy_above m (key_at i) key a (omega (arith, k.fits))

  -- the key field is as `strcpy` left it
  result_key : (t : ℕ) → t < key_size → result (key_at i + t) ≡ with_key (key_at i + t)
  unfolding with_value
  result_key t l =
      result_ne (key_at i + t) (omega arith)
      ∙ strcpy_below with_death (key_at i + value_offset) value (key_at i + t) (omega arith)
      ∙ store_int_ne with_key (key_at i + death_offset) death (key_at i + t) (inl (omega arith))

  compares : (q : Bytes) → IsKey q → strcmp q result (key_at i) ≡ text_eq q key
  unfolding with_key
  compares q kq =
      strcmp_frame q with_key result (key_at i) (λ t b. result_key t (omega (arith, kq.fits)))
      ∙ strcmp-strcpy m (key_at i) key q k.text kq.text

  reads_value :
      c_string (room table_size (key_at i + value_offset)) result (key_at i + value_offset) ≡ value
  unfolding with_value
  reads_value =
      c_string_frame (room table_size (key_at i + value_offset)) with_value result
        (key_at i + value_offset) (length value)
        (strcpy_end with_death (key_at i + value_offset) value) (omega (arith, v.fits))
        (λ s l. result_ne (key_at i + value_offset + s) (omega arith))
      ∙ c_string-strcpy (room table_size (key_at i + value_offset)) with_death
          (key_at i + value_offset) value v.text (omega (arith, v.fits))

  -- The record holds the pair afterwards, and no byte outside it has changed.
  pub put_record-IsStored :
      IsStored table_size value_offset i m (put_record m i key value death) key value
  unfolding result with_value
  put_record-IsStored = record {
    outside = result_outside;
    status = write_self with_value (status_at i) filled;
    compares = compares;
    reads = reads_value;
    closed =
        result_ne (key_at i + value_offset + length value) (omega arith)
        ∙ strcpy_end with_death (key_at i + value_offset) value;
  }

  -- The expiration time is the one that was stored.
  put_record-death :
      death < 2 ^ 32 → load_int (put_record m i key value death) (key_at i + death_offset) ≡ death
  unfolding result with_value
  put_record-death d =
      load_int_frame with_death result (key_at i + death_offset) (λ t l.
        result_ne (key_at i + death_offset + t) (omega arith)
        ∙ strcpy_below with_death (key_at i + value_offset) value (key_at i + death_offset + t)
            (omega arith))
      ∙ load_int-store_int with_key (key_at i + death_offset) death d
