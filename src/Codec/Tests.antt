-- ===== src/Codec/Tests.antt =====
-- An epoch record at concrete values.
use dpx.Base.{◌≡◌, refl, some, true}
use dpx.Codec.{EpochRecord, encode_epoch_record, decode_epoch_record, put_uint, uint}

abbrev credit_at_300 : EpochRecord
credit_at_300 = record { epoch = 300; is_credit = true }

credit_comes_back : decode_epoch_record (encode_epoch_record credit_at_300) ≡ some credit_at_300
unfolding decode_epoch_record encode_epoch_record put_uint uint
credit_comes_back = refl
