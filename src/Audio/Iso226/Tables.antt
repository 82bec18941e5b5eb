-- ===== src/Audio/Iso226/Tables.antt =====
-- audio/Iso226.h: Table 1 of the standard.
use phu_audio_lib.Base.{ℕ, pos, negsuc, List, [], ◌∷◌, map}
use phu_audio_lib.Double.{Double}

abbrev pub num_freqs : ℕ
num_freqs = 29

module _ (d : Double) where
  abbrev pub freq_data : List d.Carrier
  freq_data =
      map (λ n. d.lit n 10)
        (pos 200
          ∷ pos 250
          ∷ pos 315
          ∷ pos 400
          ∷ pos 500
          ∷ pos 630
          ∷ pos 800
          ∷ pos 1000
          ∷ pos 1250
          ∷ pos 1600
          ∷ pos 2000
          ∷ pos 2500
          ∷ pos 3150
          ∷ pos 4000
          ∷ pos 5000
          ∷ pos 6300
          ∷ pos 8000
          ∷ pos 10000
          ∷ pos 12500
          ∷ pos 16000
          ∷ pos 20000
          ∷ pos 25000
          ∷ pos 31500
          ∷ pos 40000
          ∷ pos 50000
          ∷ pos 63000
          ∷ pos 80000
          ∷ pos 100000
          ∷ pos 125000
          ∷ [])

  abbrev pub af_data : List d.Carrier
  af_data =
      map (λ n. d.lit n 1000)
        (pos 532
          ∷ pos 506
          ∷ pos 480
          ∷ pos 455
          ∷ pos 432
          ∷ pos 409
          ∷ pos 387
          ∷ pos 367
          ∷ pos 349
          ∷ pos 330
          ∷ pos 315
          ∷ pos 301
          ∷ pos 288
          ∷ pos 276
          ∷ pos 267
          ∷ pos 259
          ∷ pos 253
          ∷ pos 250
          ∷ pos 246
          ∷ pos 244
          ∷ pos 243
          ∷ pos 243
          ∷ pos 243
          ∷ pos 242
          ∷ pos 242
          ∷ pos 245
          ∷ pos 254
          ∷ pos 271
          ∷ pos 301
          ∷ [])

  abbrev pub lu_data : List d.Carrier
  lu_data =
      map (λ n. d.lit n 10)
        (negsuc 315
          ∷ negsuc 271
          ∷ negsuc 229
          ∷ negsuc 190
          ∷ negsuc 158
          ∷ negsuc 129
          ∷ negsuc 102
          ∷ negsuc 80
          ∷ negsuc 61
          ∷ negsuc 44
          ∷ negsuc 30
          ∷ negsuc 19
          ∷ negsuc 10
          ∷ negsuc 3
          ∷ pos 0
          ∷ pos 3
          ∷ pos 5
          ∷ pos 0
          ∷ negsuc 26
          ∷ negsuc 40
          ∷ negsuc 9
          ∷ pos 17
          ∷ pos 25
          ∷ pos 12
          ∷ negsuc 20
          ∷ negsuc 70
          ∷ negsuc 111
          ∷ negsuc 106
          ∷ negsuc 30
          ∷ [])

  abbrev pub tf_data : List d.Carrier
  tf_data =
      map (λ n. d.lit n 10)
        (pos 785
          ∷ pos 687
          ∷ pos 595
          ∷ pos 511
          ∷ pos 440
          ∷ pos 375
          ∷ pos 315
          ∷ pos 265
          ∷ pos 221
          ∷ pos 179
          ∷ pos 144
          ∷ pos 114
          ∷ pos 86
          ∷ pos 62
          ∷ pos 44
          ∷ pos 30
          ∷ pos 22
          ∷ pos 24
          ∷ pos 35
          ∷ pos 17
          ∷ negsuc 12
          ∷ negsuc 41
          ∷ negsuc 59
          ∷ negsuc 53
          ∷ negsuc 14
          ∷ pos 60
          ∷ pos 126
          ∷ pos 139
          ∷ pos 123
          ∷ [])
