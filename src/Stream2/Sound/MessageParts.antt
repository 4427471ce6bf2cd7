-- ===== src/Stream2/Sound/MessageParts.antt =====
-- Which blocks an image and an end message of eigerApp/src/stream2.c own, and that their members are
-- parts of them.
use adeiger.Base.{◌+◌, arith}
use adeiger.Stream2.Types.{ImageMsg, EndMsg}
use adeiger.Stream2.Image
use adeiger.Stream2.EndMsg as End
use adeiger.Stream2.Sound.{Owner, no_blocks, IsPart}
use adeiger.Stream2.Sound.Scalars.{text_count, text_blocks}
use adeiger.Stream2.Sound.ValueParts.{ArrayFits, array_blocks, channel_blocks}

abbrev pub image_blocks : Owner ImageMsg
image_blocks = record {
  blocks = λ m p.
      text_count m.series_unique_id p
      + text_count m.series_date p
      + (array_blocks channel_blocks).blocks m.channel_data p;
  Fit = λ m. ArrayFits m.channel_data.ptr m.channel_data.items;
}

abbrev pub end_blocks : Owner EndMsg
end_blocks = record { blocks = λ m. text_count m.series_unique_id; Fit = λ m. Unit }

pub image_series_id-IsPart : IsPart image_blocks no_blocks Image.in_series_id
image_series_id-IsPart = record {
  within = λ t p. omega arith;
  swap = λ t s p. omega arith;
  fit_view = λ t x. tt;
  fit_update = λ t s x y. x;
}

pub image_series_unique_id-IsPart : IsPart image_blocks text_blocks Image.in_series_unique_id
image_series_unique_id-IsPart = record {
  within = λ t p. omega arith;
  swap = λ t s p. omega arith;
  fit_view = λ t x. tt;
  fit_update = λ t s x y. x;
}

pub image_image_id-IsPart : IsPart image_blocks no_blocks Image.in_image_id
image_image_id-IsPart = record {
  within = λ t p. omega arith;
  swap = λ t s p. omega arith;
  fit_view = λ t x. tt;
  fit_update = λ t s x y. x;
}

pub image_real_time-IsPart : IsPart image_blocks no_blocks Image.in_real_time
image_real_time-IsPart = record {
  within = λ t p. omega arith;
  swap = λ t s p. omega arith;
  fit_view = λ t x. tt;
  fit_update = λ t s x y. x;
}

pub image_series_date-IsPart : IsPart image_blocks text_blocks Image.in_series_date
image_series_date-IsPart = record {
  within = λ t p. omega arith;
  swap = λ t s p. omega arith;
  fit_view = λ t x. tt;
  fit_update = λ t s x y. x;
}

pub image_start_time-IsPart : IsPart image_blocks no_blocks Image.in_start_time
image_start_time-IsPart = record {
  within = λ t p. omega arith;
  swap = λ t s p. omega arith;
  fit_view = λ t x. tt;
  fit_update = λ t s x y. x;
}

pub image_stop_time-IsPart : IsPart image_blocks no_blocks Image.in_stop_time
image_stop_time-IsPart = record {
  within = λ t p. omega arith;
  swap = λ t s p. omega arith;
  fit_view = λ t x. tt;
  fit_update = λ t s x y. x;
}

pub image_user_data-IsPart : IsPart image_blocks no_blocks Image.in_user_data
image_user_data-IsPart = record {
  within = λ t p. omega arith;
  swap = λ t s p. omega arith;
  fit_view = λ t x. tt;
  fit_update = λ t s x y. x;
}

pub image_channel_data-IsPart :
    IsPart image_blocks (array_blocks channel_blocks) Image.in_channel_data
image_channel_data-IsPart = record {
  within = λ t p. omega arith;
  swap = λ t s p. omega arith;
  fit_view = λ t x. x;
  fit_update = λ t s x y. y;
}

pub end_series_id-IsPart : IsPart end_blocks no_blocks End.in_series_id
end_series_id-IsPart = record {
  within = λ t p. omega arith;
  swap = λ t s p. omega arith;
  fit_view = λ t x. tt;
  fit_update = λ t s x y. x;
}

pub end_series_unique_id-IsPart : IsPart end_blocks text_blocks End.in_series_unique_id
end_series_unique_id-IsPart = record {
  within = λ t p. omega arith;
  swap = λ t s p. omega arith;
  fit_view = λ t x. tt;
  fit_update = λ t s x y. x;
}
